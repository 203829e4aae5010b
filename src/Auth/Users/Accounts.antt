-- ===== src/Auth/Users/Accounts.antt =====
-- src/auth/users.py: what a user of the table is, and what a log-in needs.
use eu_ai_act_compliance.Prelude.{
  ℕ, String, Bool, true, ◌&&◌, Option, none, ◌∙◌, ap, List, some, ◌≡◌, refl, arith, Mem, str_eq,
  str_eq_iff, strip, first, contains, Bool-cases, inl, inr,
}
use eu_ai_act_compliance.Result.{ok, >>=-eq-ok, ◌>>=◌}
use eu_ai_act_compliance.Builtins.Decimal.{pos}
use eu_ai_act_compliance.Auth.Passwords.{Pbkdf2, hash_password, verify_password}
use eu_ai_act_compliance.Persistence.Engine.{
  Engine, mem_of_mem-rows, test_of_mem-rows, mem_of_first,
}
use eu_ai_act_compliance.Persistence.Models.{User}
use eu_ai_act_compliance.Persistence.Tenancy.{
  SessionInfo, select_where, apply_tenant_filter, touches_tenant_table, meets_criteria,
  tenant_scoped_tablenames, is_cross_tenant,
}
use eu_ai_act_compliance.Auth.Users.{users, authenticate, authenticate_found, checked}

module _ (engine : Engine) (info : SessionInfo) (test : User → Bool) (table : List User) where
  -- Users are found whether or not a tenant is bound.
  pub select_users :
      select_where engine users info test table
      ≡ ok (engine.rows User (λ row. test row && true) table)
  unfolding select_where apply_tenant_filter touches_tenant_table meets_criteria users
      tenant_scoped_tablenames contains
  select_users = elim (Bool-cases (is_cross_tenant info)) [ inl q ↦ rw q refl | inr q ↦ rw q refl ]

  pub first-user :
      (u : User)
      → first (engine.rows User (λ row. test row && true) table) ≡ some u
      → Mem u table × (test u ≡ true)
  first-user u h =
      let m = mem_of_first _ h in
      let kept = test_of_mem-rows engine (λ row. test row && true) table m in
      (mem_of_mem-rows engine (λ row. test row && true) table m, ground arith)

module _ (hashing : Pbkdf2) (lower : String → String) where
  authenticate_found-eq-some :
      (dummy_salt : List ℕ) (password : String) (found : Option User) {u : User}
      → authenticate_found hashing lower dummy_salt password found ≡ ok (some u)
      → (found ≡ some u) × (verify_password hashing password u.password_hash ≡ ok true)
  unfolding authenticate_found checked
  authenticate_found-eq-some dummy_salt password none h =
      let (dummy, hashed, h') =
        >>=-eq-ok (hash_password hashing dummy_salt "timing-equalisation-dummy" (pos 1000))
          (λ dummy. verify_password hashing password dummy >>= λ dropped. ok none) h in
      let (dropped, compared, last) =
        >>=-eq-ok (verify_password hashing password dummy) (λ dropped. ok none) h' in
      cc
  authenticate_found-eq-some dummy_salt password (some v) {u} h =
      let (verify, e, last) =
        >>=-eq-ok (verify_password hashing password v.password_hash)
          (λ verify. ok (checked verify v)) h in
      elim (Bool-cases verify) [
        | inr q ↦ absurd (let z = rw (q, checked) at last in cc)
        | inl q ↦
            let z = rw (q, checked) at last in
            let same : v ≡ u = cc in (ap some same, rw (← same) (e ∙ ap (λ b. ok b) q))
      ]

  -- A log-in that succeeds gives a user of the table whose email is the given one, stripped and in lower
  -- case, and whose stored hash verifies the password, whatever tenant is bound.
  pub authenticate-verified :
      (engine : Engine) (info : SessionInfo) (dummy_salt : List ℕ) (email password : String)
      (table : List User) (u : User)
      → authenticate hashing lower engine info dummy_salt email password table ≡ ok (some u)
      → Mem u table
        × (u.email ≡ lower (strip email))
        × (verify_password hashing password u.password_hash ≡ ok true)
  unfolding authenticate
  authenticate-verified engine info dummy_salt email password table u h =
      let k =
        rw (select_users engine info (λ u. str_eq u.email (lower (strip email))) table) at h in
      let (found, verified) = authenticate_found-eq-some dummy_salt password _ k in
      let (m, t) =
        first-user engine info (λ u. str_eq u.email (lower (strip email))) table u found in
      (m, (str_eq_iff u.email (lower (strip email))).0 t, verified)
