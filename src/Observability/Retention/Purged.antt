-- ===== src/Observability/Retention/Purged.antt =====
-- src/observability/retention.py: what a purge and a deletion take away.
use mathlib.Core.List.{mem-cons_self, mem-cons_of_mem, not-mem-nil}
use eu_ai_act_compliance.Prelude.{
  ℕ, ◌-◌, ◌*◌, ◌≤◌, String, Bool, true, false, not, List, [], ◌∷◌, any, filter, some, ◌≡◌, ◌&&◌,
  ◌↔◌, ◌≢◌, ◌⊎◌, inl, inr, refl, arith, sym, Mem, ltb, ltb→ge, ltb→lt, length, str_eq, str_eq_iff,
  str_eq_refl, Bool-cases, any_of_mem, mem_of_mem-filter, test_of_mem-filter, mem-filter_of_mem,
  contains,
}
use eu_ai_act_compliance.Result.{ok}
use eu_ai_act_compliance.Calendar.{DateTime, day_length}
use eu_ai_act_compliance.Persistence.Engine.{
  Engine, mem_of_mem-rows, test_of_mem-rows, mem-rows_of_mem,
}
use eu_ai_act_compliance.Persistence.Models.{AssessmentRecord}
use eu_ai_act_compliance.Persistence.Tenancy.{
  SessionInfo, assessment_record, select_where, apply_tenant_filter, meets_criteria,
  stamp_and_verify_writes, stamp_new, verify_all, verify, is_tenant_scoped, tenant_id_of, owned_by,
  tenant_scoped_tablenames, cross_tenant_context, is_cross_tenant, bound_tenant_id,
}
use eu_ai_act_compliance.Persistence.Tenancy.Reads.{select_where-isolated}
use eu_ai_act_compliance.Observability.Retention.{
  delete_found, delete_flushed, assessment_records, is_among, delete_all, purge_before,
  purge_expired_assessments, delete_assessment,
}

-- The primary key: no two rows with the same id.
abbrev pub Keyed : List AssessmentRecord → Type 0
Keyed table = (r s : AssessmentRecord) → Mem r table → Mem s table → r.id ≡ s.id → r ≡ s

mem_of_any :
    (p : AssessmentRecord → Bool) (rs : List AssessmentRecord)
    → any p rs ≡ true
    → (r : AssessmentRecord) × Mem r rs × (p r ≡ true)
mem_of_any p [] h = cc
mem_of_any p (r ∷ rest) h = elim (Bool-cases (p r)) [
  | inl q ↦ (r, mem-cons_self, q)
  | inr q ↦ let (s, m, k) = mem_of_any p rest (ground arith) in (s, mem-cons_of_mem r m, k)
]

expired : Engine → DateTime → List AssessmentRecord → List AssessmentRecord
expired engine cutoff table =
    engine.rows AssessmentRecord (λ r. ltb r.created_at cutoff && true) table

purge-eq :
    (engine : Engine) (info : SessionInfo) (table : List AssessmentRecord) (days : ℕ)
    (as_of : DateTime)
    → days * day_length ≤ as_of
    → purge_expired_assessments engine days as_of (info, table) ≡ (
      ok (length (expired engine (as_of - days * day_length) table)),
      (
        record info { cross_tenant = some (is_cross_tenant info) },
        filter (λ r. not (is_among (expired engine (as_of - days * day_length) table) r)) table,
      ),
    )
unfolding purge_expired_assessments cross_tenant_context purge_before delete_all
    stamp_and_verify_writes select_where apply_tenant_filter meets_criteria is_cross_tenant expired
    assessment_records
purge-eq engine info table days as_of le =
    let t : ltb as_of (days * day_length) ≡ false = ground arith in rw t refl

module _ (engine : Engine) (table : List AssessmentRecord) (keyed : Keyed table)
    (cutoff : DateTime) where
  stale :
      (r : AssessmentRecord)
      → Mem r table
      → is_among (expired engine cutoff table) r ≡ true
      → ltb r.created_at cutoff ≡ true
  unfolding is_among expired
  stale r m h =
      let (e, at, same) = mem_of_any (λ e. str_eq e.id r.id) (expired engine cutoff table) h in
      let stored = mem_of_mem-rows engine (λ r. ltb r.created_at cutoff && true) table at in
      let old = test_of_mem-rows engine (λ r. ltb r.created_at cutoff && true) table at in
      let e-r : e ≡ r = keyed e r stored m ((str_eq_iff e.id r.id).0 same) in
      rw (← e-r) (ground arith)

  among :
      (r : AssessmentRecord)
      → Mem r table
      → ltb r.created_at cutoff ≡ true
      → is_among (expired engine cutoff table) r ≡ true
  unfolding is_among expired
  among r m h =
      any_of_mem (λ e. str_eq e.id r.id) (expired engine cutoff table)
        (mem-rows_of_mem engine (λ r. ltb r.created_at cutoff && true) table m (ground arith))
        (str_eq_refl r.id)

  answers :
      (r : AssessmentRecord)
      → Mem r (filter (λ r. not (is_among (expired engine cutoff table) r)) table)
        ↔ (Mem r table × (cutoff ≤ r.created_at))
  answers r = (
    (λ m.
        let stored =
          mem_of_mem-filter (λ r. not (is_among (expired engine cutoff table) r)) table m in
        let kept =
          test_of_mem-filter (λ r. not (is_among (expired engine cutoff table) r)) table m in
        (
          stored,
          elim (Bool-cases (ltb r.created_at cutoff)) [
            | inl q ↦ absurd (let k = among r stored q in cc)
            | inr q ↦ ltb→ge r.created_at cutoff q
          ],
        )),
    (λ (m, young).
        mem-filter_of_mem (λ r. not (is_among (expired engine cutoff table) r)) table m
          (elim (Bool-cases (is_among (expired engine cutoff table) r)) [
            | inl q ↦
                absurd (let k = ltb→lt r.created_at cutoff (stale r m q) in omega (arith, k, young))
            | inr q ↦ rw q refl
          ])),
  )

-- The purge, on a session bound to any tenant or to none, raises only where the cutoff lies before
-- the calendar. Otherwise it deletes the records of every tenant that were made before the cutoff and
-- no others, and leaves the session bound and exempt as it was.
pub purge_expired_assessments-removes :
    (engine : Engine) (info : SessionInfo) (table : List AssessmentRecord) (days : ℕ)
    (as_of : DateTime)
    → Keyed table
    → days * day_length ≤ as_of
    → let (result, (info', after)) = purge_expired_assessments engine days as_of (info, table) in
      ((n : ℕ) × (result ≡ ok n))
      × ((r : AssessmentRecord)
          → Mem r after ↔ (Mem r table × (as_of - days * day_length ≤ r.created_at)))
      × (bound_tenant_id info' ≡ bound_tenant_id info)
      × (is_cross_tenant info' ≡ is_cross_tenant info)
unfolding bound_tenant_id is_cross_tenant
purge_expired_assessments-removes engine info table days as_of keyed le =
    rw (purge-eq engine info table days as_of le)
      ((_, refl), answers engine table keyed (as_of - days * day_length), refl, refl)

module _ (engine : Engine) (info : SessionInfo) {t : String}
    (guarded : is_cross_tenant info ≡ false) (bound : bound_tenant_id info ≡ some t) where
  commit-deleted :
      (r : AssessmentRecord)
      → r.tenant_id ≡ some t
      → (stamp_and_verify_writes info [] [] (assessment_record r ∷ [])).0 ≡ ok tt
  unfolding stamp_and_verify_writes stamp_new verify_all verify is_tenant_scoped tenant_id_of
      owned_by
  commit-deleted r own = rw (guarded, bound, own, str_eq_refl t) refl

  only_among :
      (r : AssessmentRecord) (table : List AssessmentRecord) (x : AssessmentRecord)
      → Mem x (filter (λ x. not (is_among (r ∷ []) x)) table) ↔ (Mem x table × (x.id ≢ r.id))
  unfolding is_among
  only_among r table x = (
    (λ m.
        let kept = test_of_mem-filter (λ x. not (is_among (r ∷ []) x)) table m in
        (
          mem_of_mem-filter (λ x. not (is_among (r ∷ []) x)) table m,
          λ same. (let k = (str_eq_iff r.id x.id).1 (sym same) in absurd (ground arith)),
        )),
    (λ (m, other).
        mem-filter_of_mem (λ x. not (is_among (r ∷ []) x)) table m
          (elim (Bool-cases (str_eq r.id x.id)) [
            | inl q ↦ absurd (other (sym ((str_eq_iff r.id x.id).0 q)))
            | inr q ↦ rw q refl
          ])),
  )

  -- On a session bound to a tenant, a deletion never raises. If the tenant owns no assessment with
  -- that id, it answers False and leaves the table, another tenant's assessment included.
  -- Otherwise it answers True and deletes the rows with that id and no others.
  pub delete_assessment-cases :
      (assessment_id : String) (table : List AssessmentRecord)
      → ((delete_assessment engine assessment_id (info, table) ≡ (ok false, (info, table)))
          × ((r : AssessmentRecord) → Mem r table → r.id ≡ assessment_id → r.tenant_id ≢ some t))
        ⊎ ((r : AssessmentRecord) × Mem r table
            × (r.id ≡ assessment_id)
            × (r.tenant_id ≡ some t)
            × ((delete_assessment engine assessment_id (info, table)).0 ≡ ok true)
            × ((x : AssessmentRecord)
                → Mem x (delete_assessment engine assessment_id (info, table)).1.1
                  ↔ (Mem x table × (x.id ≢ assessment_id))))
  unfolding delete_assessment delete_found delete_all delete_flushed assessment_records
      tenant_scoped_tablenames contains
  delete_assessment-cases assessment_id table =
      let (found, q, answers) =
        select_where-isolated engine assessment_records info (λ r. str_eq r.id assessment_id) table
          refl refl guarded bound in
      go found q answers
    where
      go :
          (found : List AssessmentRecord)
          → select_where engine assessment_records info (λ r. str_eq r.id assessment_id) table
            ≡ ok found
          → ((r : AssessmentRecord)
              → Mem r found
                ↔ (Mem r table × (str_eq r.id assessment_id ≡ true) × (r.tenant_id ≡ some t)))
          → ((delete_assessment engine assessment_id (info, table) ≡ (ok false, (info, table)))
              × ((r : AssessmentRecord)
                  → Mem r table
                  → r.id ≡ assessment_id
                  → r.tenant_id ≢ some t))
            ⊎ ((r : AssessmentRecord) × Mem r table
                × (r.id ≡ assessment_id)
                × (r.tenant_id ≡ some t)
                × ((delete_assessment engine assessment_id (info, table)).0 ≡ ok true)
                × ((x : AssessmentRecord)
                    → Mem x (delete_assessment engine assessment_id (info, table)).1.1
                      ↔ (Mem x table × (x.id ≢ assessment_id))))
      go [] q answers = inl (
        rw q refl,
        λ r m same own.
            not-mem-nil ((answers r).1 (m, (str_eq_iff r.id assessment_id).1 same, own)),
      )
      go (r ∷ rest) q answers =
          let (m, test, own) = (answers r).0 mem-cons_self in
          let same : r.id ≡ assessment_id = (str_eq_iff r.id assessment_id).0 test in
          inr (
            r,
            m,
            same,
            own,
            rw (q, commit-deleted r own) refl,
            λ x. rw (q, commit-deleted r own, ← same) (only_among r table x),
          )
