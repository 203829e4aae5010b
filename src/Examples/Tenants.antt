-- ===== src/Examples/Tenants.antt =====
-- Two tenants' rows, seen from a session of one of them.
use mathlib.Core.Logic.Or
use mathlib.Core.List.{mem-cons, not-mem-nil}
use native.Mathlib.Nat.{ℕ_set}
use eu_ai_act_compliance.Prelude.{
  ℕ, ◌-◌, ◌*◌, ◌≤◌, String, true, false, List, [], ◌∷◌, map, All, none, some, ◌≡◌, ◌≢◌, ◌↔◌, ◌⊎◌,
  refl, arith, sym, ◌∙◌, String_set, Mem, str_eq, strip, contains, if◌then◌else◌,
}
use eu_ai_act_compliance.Result.{ok}
use eu_ai_act_compliance.Calendar.{on, day_length}
use eu_ai_act_compliance.Schemas.Enums.Severity.{widespread_infringement}
use eu_ai_act_compliance.Persistence.Engine.{in_table_order}
use eu_ai_act_compliance.Persistence.Models.{Incident, AssessmentRecord, AiSystem}
use eu_ai_act_compliance.Persistence.Tenancy.{
  SessionInfo, OrmObject, incident, is_cross_tenant, bound_tenant_id, select_where,
  stamp_and_verify_writes, stamp_new, stamp, is_tenant_scoped, tenant_id_of, set_tenant_id,
  verify_all, tenant_scoped_tablenames,
}
use eu_ai_act_compliance.Persistence.Tenancy.Reads.{select_where-isolated}
use eu_ai_act_compliance.Persistence.Tenancy.Writes.{
  OwnedBy, Insertable, stamp_and_verify_writes_iff, stamp_and_verify_writes-OwnedBy,
}
use eu_ai_act_compliance.Incidents.{IncidentSummary, incidents, mark_reported}
use eu_ai_act_compliance.Incidents.Changes.{reported, mark_reported-cases}
use eu_ai_act_compliance.Observability.Retention.{purge_expired_assessments, delete_assessment}
use eu_ai_act_compliance.Observability.Retention.Purged.{
  Keyed, purge_expired_assessments-removes, delete_assessment-cases,
}
use eu_ai_act_compliance.Systems.{get_or_create_ai_system}
use eu_ai_act_compliance.Systems.Registered.{get_or_create_ai_system-idempotent}
use eu_ai_act_compliance.Examples.{law}

abbrev acme : SessionInfo
acme = record { tenant_id = some "acme"; cross_tenant = none }

acme-guarded : is_cross_tenant acme ≡ false
unfolding is_cross_tenant
acme-guarded = refl

acme-bound : bound_tenant_id acme ≡ some "acme"
unfolding bound_tenant_id
acme-bound = refl

abbrev outage : (id tenant : String) → Incident
outage id tenant = record {
  id = id;
  tenant_id = some tenant;
  ai_system_id = "s1";
  severity = widespread_infringement;
  description = "Outage";
  detected_at = on 2025 2 1;
  reported_at = none;
  created_at = 0;
  created_by_user_id = none;
  resolved_by_user_id = none;
}

abbrev outages : List Incident
outages = outage "i1" "acme" ∷ outage "i2" "globex" ∷ []

select_where-isolated_example :
    (found : List Incident) × (select_where in_table_order incidents acme (λ i. true) outages
      ≡ ok found)
    × ((row : Incident)
        → Mem row found ↔ (Mem row outages × (true ≡ true) × (row.tenant_id ≡ some "acme")))
unfolding incidents is_cross_tenant bound_tenant_id contains tenant_scoped_tablenames
select_where-isolated_example =
    select_where-isolated in_table_order incidents acme (λ i. true) outages refl refl refl refl

abbrev untagged : OrmObject
untagged = incident (record (outage "i3" "acme") { tenant_id = none })

stamp_and_verify_writes_iff_example :
    ((stamp_and_verify_writes acme (untagged ∷ []) [] (incident (outage "i2" "globex") ∷ [])).0
      ≡ ok tt)
    ↔ (All (Insertable "acme") (untagged ∷ [])
        × All (OwnedBy "acme") (incident (outage "i2" "globex") ∷ []))
unfolding is_cross_tenant bound_tenant_id
stamp_and_verify_writes_iff_example =
    stamp_and_verify_writes_iff acme "acme" (untagged ∷ []) []
      (incident (outage "i2" "globex") ∷ []) refl refl

stamp_and_verify_writes-OwnedBy_example :
    All (OwnedBy "acme") (stamp_and_verify_writes acme (untagged ∷ []) [] []).1
unfolding is_cross_tenant bound_tenant_id stamp_and_verify_writes stamp_new stamp is_tenant_scoped
    tenant_id_of set_tenant_id verify_all
stamp_and_verify_writes-OwnedBy_example =
    stamp_and_verify_writes-OwnedBy acme "acme" (untagged ∷ []) [] [] refl refl refl

mark_reported-cases_example :
    ((mark_reported in_table_order law acme 9 "i2" none outages ≡ (ok none, outages))
      × ((j : Incident) → Mem j outages → j.id ≡ "i2" → j.tenant_id ≢ some "acme"))
    ⊎ ((i : Incident) × Mem i outages
        × (i.id ≡ "i2")
        × (i.tenant_id ≡ some "acme")
        × (mark_reported in_table_order law acme 9 "i2" none outages ≡ (
          ok (some (reported in_table_order law acme acme-guarded acme-bound 9 none i)),
          map
              (λ j.
                if str_eq j.id "i2"
                then reported in_table_order law acme acme-guarded acme-bound 9 none i
                else j)
              outages,
        )))
mark_reported-cases_example =
    mark_reported-cases in_table_order law acme acme-guarded acme-bound 9 "i2" none outages

abbrev outage_summary : IncidentSummary
outage_summary = record {
  id = "i1";
  ai_system_id = "s1";
  severity = widespread_infringement;
  severity_label = "Widespread infringement (cross-border, multiple people affected)";
  description = "Outage";
  detected_at = on 2025 2 1;
  deadline = on 2025 2 3;
  citation = "Article 73(3)";
  citation_text = "Full text unavailable.";
  reported_at = none;
  is_overdue = true;
  created_by_user_id = none;
  resolved_by_user_id = none;
}

get_or_create_ai_system-idempotent_example :
    (s : AiSystem) × (after : List AiSystem) × (get_or_create_ai_system in_table_order acme "s1" 1
        " Scorer " []
      ≡ (ok s, after))
    × Mem s after
    × (s.name ≡ strip " Scorer ")
    × (s.tenant_id ≡ some "acme")
    × (get_or_create_ai_system in_table_order acme "s2" 2 " Scorer " after ≡ (ok s, after))
unfolding is_cross_tenant bound_tenant_id
get_or_create_ai_system-idempotent_example =
    get_or_create_ai_system-idempotent in_table_order acme refl refl "s1" "s2" 1 2 " Scorer " []

abbrev assessed : (id tenant : String) → ℕ → AssessmentRecord
assessed id tenant created_at = record {
  id = id;
  tenant_id = some tenant;
  ai_system_id = none;
  created_by_user_id = none;
  created_at = created_at;
  as_of = on 2025 2 2;
  legal_knowledge_source_key = "eu_ai_act_2024_1689";
  facts_json = "{}";
  classification_json = "{}";
  obligations_json = "[]";
  evidence_assessments_json = "[]";
  gaps_json = "[]";
  review_flags_json = "[]";
  llm_calls_json = "[]";
  total_input_tokens = 0;
  total_output_tokens = 0;
  total_latency_ms = 0;
  error = none;
}

abbrev one_record : List AssessmentRecord
one_record = assessed "a1" "acme" 5 ∷ []

AssessmentRecord-set : IsSet AssessmentRecord
AssessmentRecord-set = hlevel (String_set, ℕ_set)

one_record-only : {x : AssessmentRecord} → Mem x one_record → x ≡ assessed "a1" "acme" 5
one_record-only {x} m =
    Or.elim (AssessmentRecord-set x (assessed "a1" "acme" 5)) (mem-cons.0 m) (λ e. e)
      (λ z. absurd (not-mem-nil z))

one_record-Keyed : Keyed one_record
one_record-Keyed r s m n same = one_record-only m ∙ sym (one_record-only n)

one_day : 1 * day_length ≤ 2 * day_length
unfolding day_length
one_day = omega arith

purge_expired_assessments-removes_example :
    let (result, (info', after)) =
      purge_expired_assessments in_table_order 1 (2 * day_length) (acme, one_record) in
    ((n : ℕ) × (result ≡ ok n))
    × ((r : AssessmentRecord)
        → Mem r after ↔ (Mem r one_record × (2 * day_length - 1 * day_length ≤ r.created_at)))
    × (bound_tenant_id info' ≡ bound_tenant_id acme)
    × (is_cross_tenant info' ≡ is_cross_tenant acme)
purge_expired_assessments-removes_example =
    purge_expired_assessments-removes in_table_order acme one_record 1 (2 * day_length)
      one_record-Keyed one_day

delete_assessment-cases_example :
    ((delete_assessment in_table_order "a2" (acme, one_record) ≡ (ok false, (acme, one_record)))
      × ((r : AssessmentRecord) → Mem r one_record → r.id ≡ "a2" → r.tenant_id ≢ some "acme"))
    ⊎ ((r : AssessmentRecord) × Mem r one_record
        × (r.id ≡ "a2")
        × (r.tenant_id ≡ some "acme")
        × ((delete_assessment in_table_order "a2" (acme, one_record)).0 ≡ ok true)
        × ((x : AssessmentRecord)
            → Mem x (delete_assessment in_table_order "a2" (acme, one_record)).1.1
              ↔ (Mem x one_record × (x.id ≢ "a2"))))
delete_assessment-cases_example =
    delete_assessment-cases in_table_order acme acme-guarded acme-bound "a2" one_record
