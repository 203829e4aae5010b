-- ===== src/Api/Access/Requests.antt =====
-- src/api/auth.py: what a request that gets through may rely on.
use eu_ai_act_compliance.Prelude.{
  String, Bool, true, false, ◌&&◌, List, [], ◌∷◌, Option, none, some, ◌≡◌, ◌↔◌, ◌⊎◌, inl, inr, refl,
  ap, ◌∙◌, Mem, str_eq, str_eq_iff, first, contains, Bool-cases, Option-cases, if◌then◌else◌,
}
use eu_ai_act_compliance.Result.{not_authorised, Result, ok, err, Result-cases}
use eu_ai_act_compliance.Exec
use eu_ai_act_compliance.Schemas.Enums.UserRole.{UserRole, admin, member, viewer}
use eu_ai_act_compliance.Persistence.Engine.{Engine}
use eu_ai_act_compliance.Persistence.Models.{User}
use eu_ai_act_compliance.Persistence.Tenancy.{
  SessionInfo, Mapper, bind_tenant, bound_tenant_id, is_cross_tenant, select_where,
  tenant_scoped_tablenames,
}
use eu_ai_act_compliance.Persistence.Tenancy.Reads.{select_where-isolated}
use eu_ai_act_compliance.Auth.Users.{get_user}
use eu_ai_act_compliance.Auth.Users.Accounts.{select_users, first-user}
use eu_ai_act_compliance.Api.Access.{
  role_among, found_user, user_of, get_current_user, require_role, require_writer,
}

module _ (read_session : Option String → Result (Option String)) (engine : Engine)
    (users : List User) (cookie : Option String) (info : SessionInfo) (u : User) where
  -- A request that is let in: the cookie proves a user of the table, whose tenant is bound; the
  -- exemption is as it was.
  pub record LetIn (after : SessionInfo) : Type 0 where
    pub proven : read_session cookie ≡ ok (some u.id)
    pub known : Mem u users
    pub bound : bound_tenant_id after ≡ some u.tenant_id
    pub exemption : is_cross_tenant after ≡ is_cross_tenant info

  user_of-LetIn :
      (id : String)
      → read_session cookie ≡ ok (some id)
      → (user_of read_session engine users (some id) info).0 ≡ ok u
      → LetIn (user_of read_session engine users (some id) info).1
  unfolding user_of found_user get_user bind_tenant bound_tenant_id is_cross_tenant
  user_of-LetIn id proof h =
      let k = rw (select_users engine info (λ u. str_eq u.id id) users) at h in
      elim (Option-cases (first (engine.rows User (λ row. str_eq row.id id && true) users))) [
        | inl e ↦ absurd (let z = rw e at k in cc)
        | inr (v, e) ↦
            let z = rw e at k in
            let same : v ≡ u = cc in
            let (m, t) = first-user engine info (λ u. str_eq u.id id) users v e in
            let of_id : v.id ≡ id = (str_eq_iff v.id id).0 t in
            rw (select_users engine info (λ u. str_eq u.id id) users, e, ← same)
              (record { proven = rw of_id proof; known = m; bound = refl; exemption = refl })
      ]

  user_of-none : ¬ ((user_of read_session engine users none info).0 ≡ ok u)
  unfolding user_of
  user_of-none h = cc

  get_current_user-LetIn :
      (get_current_user read_session engine users cookie info).0 ≡ ok u
      → LetIn (get_current_user read_session engine users cookie info).1
  unfolding get_current_user
  get_current_user-LetIn h = elim (Result-cases (read_session cookie)) [
    | inr (x, e) ↦ absurd (let z = rw e at h in cc)
    | inl (none, e) ↦ absurd (user_of-none (rw e at h))
    | inl (some id, e) ↦ rw e (user_of-LetIn id e (rw e at h))
  ]

  role_among-writer :
      (role : UserRole)
      → role_among role (admin ∷ member ∷ []) ≡ true
      → (role ≡ admin) ⊎ (role ≡ member)
  unfolding role_among
  role_among-writer admin h = inl refl
  role_among-writer member h = inr refl
  role_among-writer viewer h = cc

-- The role check after the look-up of the user, on the result of that look-up.
checked-cases :
    (allowed : List UserRole) (r : Result User) (after : SessionInfo) {u : User}
    → (Exec.continue {S = SessionInfo} r
        (λ user. if role_among user.role allowed then Exec.pure user else Exec.raise not_authorised)
        after).0
      ≡ ok u
    → (r ≡ ok u)
      × (role_among u.role allowed ≡ true)
      × ((Exec.continue {S = SessionInfo} r
            (λ user.
              if role_among user.role allowed then Exec.pure user else Exec.raise not_authorised)
            after).1
          ≡ after)
checked-cases allowed (err e) after h = absurd (cc)
checked-cases allowed (ok v) after {u} h = elim (Bool-cases (role_among v.role allowed)) [
  | inr q ↦ absurd (let z = rw q at h in cc)
  | inl q ↦
      let z = rw q at h in let same : v ≡ u = cc in (ap (λ x. ok x) same, rw (← same) q, rw q refl)
]

module _ (read_session : Option String → Result (Option String)) (engine : Engine)
    (users : List User) (cookie : Option String) (info : SessionInfo) (u : User)
    (passed : (require_writer read_session engine users cookie info).0 ≡ ok u) where
  -- A request that passes the check for writers comes with a cookie that proves a user of the table; that
  -- user is an ADMIN or a MEMBER, the user's tenant is bound and the exemption is as it was.
  pub require_writer-LetIn :
      LetIn read_session engine users cookie info u
        (require_writer read_session engine users cookie info).1
      × ((u.role ≡ admin) ⊎ (u.role ≡ member))
  unfolding require_writer require_role
  require_writer-LetIn =
      let (r, after) = get_current_user read_session engine users cookie info in
      let (found, among, state) = checked-cases (admin ∷ member ∷ []) r after passed in
      (
        rw state (get_current_user-LetIn read_session engine users cookie info u found),
        role_among-writer read_session engine users cookie info u u.role among,
      )

  -- On the session of such a request, which does not have the exemption, a select on a tenant owned
  -- class gives exactly the rows asked for that the user's tenant owns.
  pub require_writer-isolated :
      {A : Type 0} (mapper : Mapper A) (test : A → Bool) (table : List A)
      → is_cross_tenant info ≡ false
      → mapper.is_tenant_scoped ≡ true
      → contains mapper.tablename tenant_scoped_tablenames ≡ true
      → (found : List A) × (select_where engine mapper
            (require_writer read_session engine users cookie info).1
            test
            table
          ≡ ok found)
        × ((row : A)
            → Mem row found
              ↔ (Mem row table × (test row ≡ true) × (mapper.owner row ≡ some u.tenant_id)))
  require_writer-isolated mapper test table guarded scoped named =
      let (in_, role) = require_writer-LetIn in
      select_where-isolated engine mapper (require_writer read_session engine users cookie info).1
        test table scoped named (in_.exemption ∙ guarded) in_.bound
