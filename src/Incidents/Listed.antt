-- ===== src/Incidents/Listed.antt =====
-- src/incidents/registry.py: what the lists of incidents hold and in which order.
use mathlib.Core.Logic.{∥∥₁_elim, ∥∥₁_prop}
use mathlib.Core.List.{Mem-prop}
use mathlib.Core.List.Perm
use eu_ai_act_compliance.Prelude.{
  String, Bool, true, false, not, List, some, ◌≡◌, ◌↔◌, refl, Mem, is_some, contains,
}
use eu_ai_act_compliance.Prelude.Sort.{IsStrictWeak, IsSorted, sort, sort-perm, sort-IsSorted}
use eu_ai_act_compliance.Result.{ok, traverse, >>=-eq-ok, ◌>>=◌}
use eu_ai_act_compliance.Result.Traversal.{traverse_iff}
use eu_ai_act_compliance.Calendar.{Date, lt}
use eu_ai_act_compliance.Calendar.Order.{lt-IsStrictWeak}
use eu_ai_act_compliance.Persistence.Engine.{Engine}
use eu_ai_act_compliance.Persistence.Models.{Incident}
use eu_ai_act_compliance.Persistence.Tenancy.{
  SessionInfo, is_cross_tenant, bound_tenant_id, tenant_scoped_tablenames, select_where,
}
use eu_ai_act_compliance.Persistence.Tenancy.Reads.{select_where-isolated}
use eu_ai_act_compliance.Legal.Store.{LegalStore}
use eu_ai_act_compliance.Incidents.Article73.{IsSummary, IsSummary-to_summary, to_summary-IsSummary}
use eu_ai_act_compliance.Incidents.{IncidentSummary, incidents, to_summary, list_all_open_incidents}

module _ (engine : Engine) (store : LegalStore) (info : SessionInfo) {t : String}
    (guarded : is_cross_tenant info ≡ false) (bound : bound_tenant_id info ≡ some t) (today : Date)
    (table : List Incident) where
  -- An incident of the bound tenant that passes a test, with its summary.
  pub record Shown (test : Incident → Bool) (s : IncidentSummary) : Type 0 where
    pub source : Incident
    pub stored : Mem source table
    pub asked : test source ≡ true
    pub owned : source.tenant_id ≡ some t
    pub summary : IsSummary engine store info today source s

  listed :
      (test : Incident → Bool) (less : IncidentSummary → IncidentSummary → Bool)
      {summaries : List IncidentSummary}
      → IsStrictWeak less
      → (select_where engine incidents info test table >>= λ found.
          traverse (to_summary engine store info today) found >>= λ unsorted.
          ok (sort less unsorted))
        ≡ ok summaries
      → IsSorted less summaries × ((s : IncidentSummary) → Mem s summaries ↔ ∥ Shown test s ∥₁)
  unfolding incidents tenant_scoped_tablenames contains
  listed test less {summaries} order h =
      let (found, q, answers) =
        select_where-isolated engine incidents info test table refl refl guarded bound in
      let (unsorted, each, last) =
        >>=-eq-ok (traverse (to_summary engine store info today) found)
          (λ unsorted. ok (sort less unsorted)) (rw q at h) in
      let e : sort less unsorted ≡ summaries = cc in
      rw (← e) (
        sort-IsSorted order unsorted,
        λ s.
            let images = traverse_iff (to_summary engine store info today) found each s in
            let same = Perm.mem_iff (sort-perm less unsorted) in
            (
              (λ m. ∥∥₁_elim (images.0 (same.0 m)) ∥∥₁_prop (λ (i, at, shown).
                  let (stored, asked, owned) = (answers i).0 at in
                  ∣ record {
                    source = i;
                    stored = stored;
                    asked = asked;
                    owned = owned;
                    summary = IsSummary-to_summary engine store info today i s shown;
                  } ∣₁)),
              (λ shown. ∥∥₁_elim shown Mem-prop (λ x. same.1 (
                  images.1 ∣ (
                    x.source,
                    (answers x.source).1 (x.stored, x.asked, x.owned),
                    to_summary-IsSummary engine store info today x.source s x.summary,
                  ) ∣₁))),
            ),
      )

  -- On a session bound to a tenant, the open incidents that are listed are those of the table that
  -- the tenant owns and that are not reported, each with its summary, the sooner deadline first.
  pub list_all_open_incidents-lists :
      {summaries : List IncidentSummary}
      → list_all_open_incidents engine store info today table ≡ ok summaries
      → IsSorted (λ a b. lt a.deadline b.deadline) summaries
        × ((s : IncidentSummary)
            → Mem s summaries ↔ ∥ Shown (λ i. not (is_some i.reported_at)) s ∥₁)
  unfolding list_all_open_incidents
  list_all_open_incidents-lists h =
      listed (λ i. not (is_some i.reported_at)) (λ a b. lt a.deadline b.deadline)
        (record {
          asym = λ x y. lt-IsStrictWeak.asym x.deadline y.deadline;
          not_lt_trans = λ x y z. lt-IsStrictWeak.not_lt_trans x.deadline y.deadline z.deadline;
        })
        h
