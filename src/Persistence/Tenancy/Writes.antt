-- ===== src/Persistence/Tenancy/Writes.antt =====
-- src/persistence/tenancy.py, writes: when a flush goes through, and what it writes then.
use eu_ai_act_compliance.Prelude.{
  String, true, false, List, [], ◌∷◌, ◌++◌, All, none, some, ◌≡◌, ◌↔◌, ◌⊎◌, inl, inr, refl, arith,
  str_eq, str_eq_iff, Bool-cases, Option-cases,
}
use eu_ai_act_compliance.Result.{ok, Result-cases}
use eu_ai_act_compliance.Persistence.Tenancy.{
  SessionInfo, OrmObject, ai_system, incident, assessment_record, shared, is_cross_tenant,
  bound_tenant_id, owned_by, is_tenant_scoped, tenant_id_of, set_tenant_id, stamp, stamp_new,
  verify, verify_all, stamp_and_verify_writes,
}

-- An object that the tenant owns, or that no tenant owns because its class is shared.
pub OwnedBy : String → OrmObject → Type 0
OwnedBy t obj = is_tenant_scoped obj ≡ true → tenant_id_of obj ≡ some t

-- A new object that names no tenant, or the tenant itself.
pub Insertable : String → OrmObject → Type 0
Insertable t obj =
    is_tenant_scoped obj ≡ true → (tenant_id_of obj ≡ none) ⊎ (tenant_id_of obj ≡ some t)

tenant_id_of-set_tenant_id :
    (t : String) (obj : OrmObject)
    → is_tenant_scoped obj ≡ true
    → tenant_id_of (set_tenant_id t obj) ≡ some t
unfolding is_tenant_scoped tenant_id_of set_tenant_id
tenant_id_of-set_tenant_id t (ai_system a) h = refl
tenant_id_of-set_tenant_id t (incident a) h = refl
tenant_id_of-set_tenant_id t (assessment_record a) h = refl
tenant_id_of-set_tenant_id t (shared name) h = cc

module _ (t : String) where
  stamp-OwnedBy :
      (obj : OrmObject) {stamped : OrmObject} → stamp (some t) obj ≡ ok stamped → OwnedBy t stamped
  unfolding stamp OwnedBy
  stamp-OwnedBy obj {stamped} h = elim (Bool-cases (is_tenant_scoped obj)) [
    | inr q ↦ let e : obj ≡ stamped = ground arith in λ own. cc
    | inl q ↦ elim (Option-cases (tenant_id_of obj)) [
      | inl n ↦
          let e : set_tenant_id t obj ≡ stamped = ground arith in
          λ own. rw (← e) (tenant_id_of-set_tenant_id t obj q)
      | inr (o, n) ↦ elim (Bool-cases (str_eq o t)) [
        | inl same ↦
            let e : obj ≡ stamped = ground arith in
            let o-t : o ≡ t = (str_eq_iff o t).0 same in λ own. cc
        | inr other ↦ absurd (ground arith)
      ]
    ]
  ]

  stamp_iff :
      (obj : OrmObject)
      → ((stamped : OrmObject) × (stamp (some t) obj ≡ ok stamped)) ↔ Insertable t obj
  unfolding stamp Insertable
  stamp_iff obj = elim (Bool-cases (is_tenant_scoped obj)) [
    | inr q ↦ ((λ p h. absurd (cc)), (λ h. (obj, ground arith)))
    | inl q ↦ elim (Option-cases (tenant_id_of obj)) [
      | inl n ↦ ((λ p h. inl n), (λ h. (set_tenant_id t obj, ground arith)))
      | inr (o, n) ↦ elim (Bool-cases (str_eq o t)) [
        | inl same ↦
            let o-t : o ≡ t = (str_eq_iff o t).0 same in
            ((λ p h. inr (cc)), (λ h. (obj, ground arith)))
        | inr other ↦ (
          (λ (stamped, p) h. absurd (ground arith)),
          (λ h. absurd (elim (h q) [ inl no_owner ↦ cc | inr mine ↦ foreign o n other mine ])),
        )
      ]
    ]
  ]
    where
      foreign :
          (o : String)
          → tenant_id_of obj ≡ some o
          → str_eq o t ≡ false
          → tenant_id_of obj ≡ some t
          → ⊥
      foreign o n other mine = let o-t : o ≡ t = cc in let same = (str_eq_iff o t).1 o-t in cc

  verify_iff : (obj : OrmObject) → (verify (some t) obj ≡ ok tt) ↔ OwnedBy t obj
  unfolding verify OwnedBy owned_by
  verify_iff obj = elim (Bool-cases (is_tenant_scoped obj)) [
    | inr q ↦ ((λ p h. absurd (cc)), (λ h. ground arith))
    | inl q ↦ elim (Option-cases (tenant_id_of obj)) [
      | inl n ↦ ((λ p h. absurd (ground arith)), (λ h. absurd (let e = h q in cc)))
      | inr (o, n) ↦ elim (Bool-cases (str_eq o t)) [
        | inl same ↦ let o-t : o ≡ t = (str_eq_iff o t).0 same in ((λ p h. cc), (λ h. ground arith))
        | inr other ↦ ((λ p h. absurd (ground arith)), (λ h. absurd (foreign o n other (h q))))
      ]
    ]
  ]
    where
      foreign :
          (o : String)
          → tenant_id_of obj ≡ some o
          → str_eq o t ≡ false
          → tenant_id_of obj ≡ some t
          → ⊥
      foreign o n other mine = let o-t : o ≡ t = cc in let same = (str_eq_iff o t).1 o-t in cc

  verify_all_iff :
      (objs : List OrmObject) → (verify_all (some t) objs ≡ ok tt) ↔ All (OwnedBy t) objs
  unfolding verify_all
  verify_all_iff [] = ((λ h. tt), (λ h. refl))
  verify_all_iff (obj ∷ rest) = (
    (λ h. elim (Result-cases (verify (some t) obj)) [
      | inl (u, e) ↦ ((verify_iff obj).0 e, (verify_all_iff rest).0 (rw e at h))
      | inr (x, e) ↦ absurd (cc)
    ]),
    (λ (here, there). rw ((verify_iff obj).1 here) ((verify_all_iff rest).1 there)),
  )

  stamp_new_iff :
      (new : List OrmObject) → ((stamp_new (some t) new).0 ≡ ok tt) ↔ All (Insertable t) new
  unfolding stamp_new
  stamp_new_iff [] = ((λ h. tt), (λ h. refl))
  stamp_new_iff (obj ∷ rest) = (
    (λ h. elim (Result-cases (stamp (some t) obj)) [
      | inl (o, e) ↦ ((stamp_iff obj).0 (o, e), (stamp_new_iff rest).0 (rw e at h))
      | inr (x, e) ↦ absurd (let k = rw e at h in cc)
    ]),
    (λ (here, there).
        let (stamped, e) = (stamp_iff obj).1 here in rw e ((stamp_new_iff rest).1 there)),
  )

  stamp_new-Owned :
      (new : List OrmObject)
      → (stamp_new (some t) new).0 ≡ ok tt
      → All (OwnedBy t) (stamp_new (some t) new).1
  unfolding stamp_new
  stamp_new-Owned [] h = tt
  stamp_new-Owned (obj ∷ rest) h = elim (Result-cases (stamp (some t) obj)) [
    | inl (o, e) ↦ rw e (stamp-OwnedBy obj e, stamp_new-Owned rest (rw e at h))
    | inr (x, e) ↦ absurd (let k = rw e at h in cc)
  ]

module _ (info : SessionInfo) (t : String) (new dirty deleted : List OrmObject)
    (guarded : is_cross_tenant info ≡ false) (bound : bound_tenant_id info ≡ some t) where
  flushed-both :
      (stamp_and_verify_writes info new dirty deleted).0 ≡ ok tt
      → ((stamp_new (some t) new).0 ≡ ok tt) × (verify_all (some t) (dirty ++ deleted) ≡ ok tt)
  unfolding stamp_and_verify_writes
  flushed-both h =
      let flushed = rw (guarded, bound) at h in
      elim (Result-cases (stamp_new (some t) new).0) [
        | inl (u, e) ↦ (e, rw e at flushed)
        | inr (x, e) ↦ absurd (let k = rw e at flushed in cc)
      ]

  -- A flush on a session bound to a tenant, without the exemption, goes through exactly when each
  -- new object names no tenant or the bound one and each changed or deleted object is the bound
  -- tenant's. Objects of shared classes are exempt.
  pub stamp_and_verify_writes_iff :
      ((stamp_and_verify_writes info new dirty deleted).0 ≡ ok tt)
      ↔ (All (Insertable t) new × All (OwnedBy t) (dirty ++ deleted))
  unfolding stamp_and_verify_writes
  stamp_and_verify_writes_iff = (
    (λ h.
        let (here, there) = flushed-both h in
        ((stamp_new_iff t new).0 here, (verify_all_iff t (dirty ++ deleted)).0 there)),
    (λ (here, there).
        rw (guarded, bound, (stamp_new_iff t new).1 here)
          ((verify_all_iff t (dirty ++ deleted)).1 there)),
  )

  -- When a flush on such a session goes through, each new object of a tenant owned class that it
  -- writes is the bound tenant's.
  pub stamp_and_verify_writes-OwnedBy :
      (stamp_and_verify_writes info new dirty deleted).0 ≡ ok tt
      → All (OwnedBy t) (stamp_and_verify_writes info new dirty deleted).1
  unfolding stamp_and_verify_writes
  stamp_and_verify_writes-OwnedBy h = rw (guarded, bound) (stamp_new-Owned t new (flushed-both h).0)

module _ (info : SessionInfo) (guarded : is_cross_tenant info ≡ false)
    (unbound : bound_tenant_id info ≡ none) where
  stamp_new-shared :
      (new : List OrmObject)
      → (stamp_new none new).0 ≡ ok tt
      → All (λ obj. is_tenant_scoped obj ≡ false) new
  unfolding stamp_new stamp
  stamp_new-shared [] h = tt
  stamp_new-shared (obj ∷ rest) h = elim (Bool-cases (is_tenant_scoped obj)) [
    | inl q ↦ absurd (let k = rw q at h in cc)
    | inr q ↦ (q, stamp_new-shared rest (rw q at h))
  ]

  verify_all-shared :
      (objs : List OrmObject)
      → verify_all none objs ≡ ok tt
      → All (λ obj. is_tenant_scoped obj ≡ false) objs
  unfolding verify_all verify
  verify_all-shared [] h = tt
  verify_all-shared (obj ∷ rest) h = elim (Bool-cases (is_tenant_scoped obj)) [
    | inl q ↦ absurd (let k = rw q at h in cc)
    | inr q ↦ (q, verify_all-shared rest (rw q at h))
  ]

  -- A flush on a session with no tenant bound, without the exemption, that goes through has no
  -- object of a tenant owned class, new, changed or deleted.
  pub stamp_and_verify_writes-unbound :
      (new dirty deleted : List OrmObject)
      → (stamp_and_verify_writes info new dirty deleted).0 ≡ ok tt
      → All (λ obj. is_tenant_scoped obj ≡ false) new
        × All (λ obj. is_tenant_scoped obj ≡ false) (dirty ++ deleted)
  unfolding stamp_and_verify_writes
  stamp_and_verify_writes-unbound new dirty deleted h =
      let flushed = rw (guarded, unbound) at h in
      elim (Result-cases (stamp_new none new).0) [
        | inl (u, e) ↦
            (stamp_new-shared new e, verify_all-shared (dirty ++ deleted) (rw e at flushed))
        | inr (x, e) ↦ absurd (let k = rw e at flushed in cc)
      ]
