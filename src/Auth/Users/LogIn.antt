-- ===== src/Auth/Users/LogIn.antt =====
-- src/auth/users.py: a user who was created can log in.
use mathlib.Core.Logic.Or
use mathlib.Core.List.Perm
use mathlib.Core.List.{mem-cons, mem-cons_self, not-mem-nil}
use native.Mathlib.Decide.{ℕ_discrete}
use eu_ai_act_compliance.Prelude.{
  ℕ, String, Bool, true, false, ◌&&◌, List, [], ◌∷◌, ◌++◌, some, ◌≡◌, refl, ap, sym, ◌∙◌, arith,
  str_eq, str_eq_iff, strip, first, any, filter, filter-append, Bool-cases, inl, inr, Mem,
  String_set,
}
use eu_ai_act_compliance.Result.{ok, err, Result, >>=-eq-ok, ◌>>◌}
use eu_ai_act_compliance.Builtins.Hex.RoundTrip.{Bytes}
use eu_ai_act_compliance.Auth.Passwords.{Pbkdf2, iterations_default, hash_password}
use eu_ai_act_compliance.Auth.Passwords.Verified.{verify_password-hash_password}
use eu_ai_act_compliance.Calendar.{DateTime}
use eu_ai_act_compliance.Schemas.Enums.UserRole.{UserRole}
use eu_ai_act_compliance.Persistence.Engine.{Engine, mem_of_first, first_of_mem}
use eu_ai_act_compliance.Persistence.Models.{User}
use eu_ai_act_compliance.Persistence.Tenancy.{SessionInfo}
use eu_ai_act_compliance.Auth.Users.{
  validate_password, insert_user, insert_hashed, create_user, authenticate, authenticate_found,
  checked,
}
use eu_ai_act_compliance.Auth.Users.Accounts.{select_users}

filter-none :
    (test : User → Bool) (table : List User)
    → any test table ≡ false
    → filter (λ row. test row && true) table ≡ []
filter-none test [] h = refl
filter-none test (u ∷ table) h = ground (arith, filter-none test table)

UserRole-discrete : Discrete UserRole
UserRole-discrete = hlevel

pub User-set : IsSet User
User-set = hlevel (String_set, ℕ_discrete, UserRole-discrete)

-- The one row that passes is found, in whatever order the engine gives rows.
first-rows :
    (engine : Engine) (test : User → Bool) (table : List User) (u : User)
    → any test table ≡ false
    → test u ≡ true
    → first (engine.rows User (λ row. test row && true) (table ++ (u ∷ []))) ≡ some u
first-rows engine test table u unused found =
    let both = λ (row : User). test row && true in
    let e : filter both (table ++ (u ∷ [])) ≡ u ∷ [] =
      rw (filter-append both table (u ∷ []), filter-none test table unused, found) refl in
    let q = engine.rows-perm User both (table ++ (u ∷ [])) in
    let m : Mem u (engine.rows User both (table ++ (u ∷ []))) =
      (Perm.mem_iff q).1 (rw e mem-cons_self) in
    let (b, k) = first_of_mem (engine.rows User both (table ++ (u ∷ []))) m in
    let n : Mem b (u ∷ []) = rw e at ((Perm.mem_iff q).0 (mem_of_first _ k)) in
    k ∙ ap some (Or.elim (User-set b u) (mem-cons.0 n) (λ p. p) (λ r. absurd (not-mem-nil r)))

module _ (hashing : Pbkdf2) (lower : String → String) (id : String) (now : DateTime) (salt : List ℕ)
    (tenant_id email password : String) (role : UserRole) (table : List User) where
  -- What a creation that succeeded did.
  record Created (user : User) (after : List User) : Type 0 where
    password_hash : String
    hashed : hash_password hashing salt password iterations_default ≡ ok password_hash
    stored : user.password_hash ≡ password_hash
    named : user.email ≡ lower (strip email)
    unused : any (λ u. str_eq u.email (lower (strip email))) table ≡ false
    added : after ≡ table ++ (user ∷ [])

  insert_hashed-Created :
      (r : Result String) (user : User) (after : List User)
      → (validate_password password >> hash_password hashing salt password iterations_default) ≡ r
      → insert_hashed r
          (λ password_hash. record {
            id = id;
            tenant_id = tenant_id;
            email = lower (strip email);
            password_hash = password_hash;
            role = role;
            created_at = now;
          })
          table
        ≡ (ok user, after)
      → Created user after
  unfolding insert_hashed insert_user
  insert_hashed-Created (err e) user after q h = absurd (let z = ap (λ p. p.0) h in cc)
  insert_hashed-Created (ok password_hash) user after q h =
      elim (Bool-cases (any (λ u. str_eq u.email (lower (strip email))) table)) [
        | inl k ↦ absurd (let z = ap (λ p. p.0) (rw k at h) in cc)
        | inr k ↦
            let z = rw k at h in
            let row = ap (λ p. p.0) z in
            let same : user ≡ record {
              id = id;
              tenant_id = tenant_id;
              email = lower (strip email);
              password_hash = password_hash;
              role = role;
              created_at = now;
            } =
              cc in
            let grown = ap (λ p. p.1) z in
            let (checked, valid, hashed) =
              >>=-eq-ok (validate_password password)
                (λ done. hash_password hashing salt password iterations_default) q in
            record {
              password_hash = password_hash;
              hashed = hashed;
              stored = ap (λ u. u.password_hash) same;
              named = ap (λ u. u.email) same;
              unused = k;
              added = sym grown ∙ ap (λ u. table ++ (u ∷ [])) (sym same);
            }
      ]

  -- A user who was created can log in with the password, and with an email that is the same once stripped
  -- and in lower case, whatever order the engine gives rows in and whatever tenant is bound.
  pub authenticate-create_user :
      (engine : Engine) (info : SessionInfo) (dummy_salt : List ℕ) (email' : String) {user : User}
      {after : List User}
      → Bytes salt
      → lower (strip email') ≡ lower (strip email)
      → create_user hashing lower id now salt tenant_id email password role table ≡ (ok user, after)
      → authenticate hashing lower engine info dummy_salt email' password after ≡ ok (some user)
  unfolding create_user authenticate
  authenticate-create_user engine info dummy_salt email' {user} {after} hs alike h =
      let made = insert_hashed-Created _ user after refl h in
      let found =
        first-rows engine (λ u. str_eq u.email (lower (strip email))) table user made.unused
          ((str_eq_iff _ _).1 made.named) in
      let verifies =
        (verify_password-hash_password hashing salt password iterations_default password hs
            made.hashed).1
          refl in
      rw
        (
          alike,
          made.added,
          select_users engine info (λ u. str_eq u.email (lower (strip email)))
              (table ++ (user ∷ [])),
          found,
        )
        (unfold authenticate_found in rw (made.stored, verifies) (unfold checked in refl))
