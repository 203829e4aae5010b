-- ===== src/Incidents.antt =====
-- src/incidents/registry.py: serious incidents, their deadlines under Article 73 and their lists. The
-- session's table of incidents is the state; its id and the clock are given to `create_incident`.
pub mod Article73
pub mod Listed
pub mod Changes
use eu_ai_act_compliance.Prelude.{
  ℕ, String, Bool, true, false, not, ◌&&◌, ◌||◌, List, [], ◌∷◌, ◌++◌, map, Option, none, some,
  str_eq, is_some, first, if◌then◌else◌, is_nonempty,
}
use eu_ai_act_compliance.Prelude.Sort.{sort}
use eu_ai_act_compliance.Result.{Result, ok, err, ◌>>=◌, ◌>>◌, traverse}
use eu_ai_act_compliance.Calendar.{Date, DateTime, add_days, lt}
use eu_ai_act_compliance.Schemas.Enums.Severity.{
  IncidentSeverity, death_or_serious_health_harm, critical_infrastructure_disruption,
  fundamental_rights_infringement, property_or_environment_harm, widespread_infringement,
}
use eu_ai_act_compliance.Persistence.Engine.{Engine}
use eu_ai_act_compliance.Persistence.Models.{Incident}
use eu_ai_act_compliance.Persistence.Tenancy.{
  SessionInfo, Mapper, OrmObject, ai_system, incident, assessment_record, shared, select_where,
  stamp_and_verify_writes,
}
use eu_ai_act_compliance.Legal.Store.{LegalStore}
use eu_ai_act_compliance.Legal.Queries.{find_provision_text_by_citation}

-- `SEVERITY_DEADLINE_DAYS`
unfoldable pub severity_deadline_days : IncidentSeverity → ℕ
severity_deadline_days death_or_serious_health_harm = 10
severity_deadline_days critical_infrastructure_disruption = 2
severity_deadline_days fundamental_rights_infringement = 15
severity_deadline_days property_or_environment_harm = 15
severity_deadline_days widespread_infringement = 2

-- `SEVERITY_CITATIONS`
unfoldable pub severity_citations : IncidentSeverity → String
severity_citations death_or_serious_health_harm = "Article 73(4)"
severity_citations critical_infrastructure_disruption = "Article 73(3)"
severity_citations fundamental_rights_infringement = "Article 73(2)"
severity_citations property_or_environment_harm = "Article 73(2)"
severity_citations widespread_infringement = "Article 73(3)"

-- `SEVERITY_LABELS`
unfoldable pub severity_labels : IncidentSeverity → String
severity_labels death_or_serious_health_harm = "Death or serious harm to a person's health"
severity_labels critical_infrastructure_disruption =
    "Serious, irreversible disruption to critical infrastructure"
severity_labels fundamental_rights_infringement = "Infringement of fundamental-rights obligations"
severity_labels property_or_environment_harm = "Serious harm to property or the environment"
severity_labels widespread_infringement =
    "Widespread infringement (cross-border, multiple people affected)"

pub record IncidentSummary : Type 0 where
  pub id : String
  pub ai_system_id : String
  pub severity : IncidentSeverity
  pub severity_label : String
  pub description : String
  pub detected_at : Date
  pub deadline : Date
  pub citation : String
  pub citation_text : String
  pub reported_at : Option DateTime
  pub is_overdue : Bool
  pub created_by_user_id : Option String
  pub resolved_by_user_id : Option String

-- `text or default`
unfoldable pub text_or : Option String → String → String
text_or none default = default
text_or (some text) default = if is_nonempty text then text else default

-- The class `Incident`, as the tenant filter sees it.
unfoldable pub incidents : Mapper Incident
incidents = record { tablename = "incidents"; is_tenant_scoped = true; owner = λ i. i.tenant_id }

module _ (engine : Engine) (store : LegalStore) (info : SessionInfo) where
  -- `_to_summary`
  unfoldable pub to_summary : (today : Date) → Incident → Result IncidentSummary
  to_summary today i = do
    deadline ← add_days (severity_deadline_days i.severity) i.detected_at
    ok (record {
      id = i.id;
      ai_system_id = i.ai_system_id;
      severity = i.severity;
      severity_label = severity_labels i.severity;
      description = i.description;
      detected_at = i.detected_at;
      deadline = deadline;
      citation = severity_citations i.severity;
      citation_text =
          text_or (find_provision_text_by_citation engine store "Article 73")
            "Full text unavailable.";
      reported_at = i.reported_at;
      is_overdue = not (is_some i.reported_at) && lt deadline today;
      created_by_user_id = i.created_by_user_id;
      resolved_by_user_id = i.resolved_by_user_id;
    })

  -- `key=lambda s: (s.reported_at is not None, s.deadline)`
  unfoldable pub more_urgent : IncidentSummary → IncidentSummary → Bool
  more_urgent a b =
      (not (is_some a.reported_at) && is_some b.reported_at)
      || ((is_some a.reported_at || not (is_some b.reported_at))
          && (not (is_some a.reported_at) || is_some b.reported_at)
          && lt a.deadline b.deadline)

  unfoldable pub list_incidents_for_system :
      (ai_system_id : String) (today : Date) → List Incident → Result (List IncidentSummary)
  unfolding more_urgent
  list_incidents_for_system ai_system_id today table = do
    found ← select_where engine incidents info (λ i. str_eq i.ai_system_id ai_system_id) table
    summaries ← traverse (to_summary today) found
    ok (sort more_urgent summaries)

  unfoldable pub list_all_open_incidents :
      (today : Date) → List Incident → Result (List IncidentSummary)
  list_all_open_incidents today table = do
    found ← select_where engine incidents info (λ i. not (is_some i.reported_at)) table
    summaries ← traverse (to_summary today) found
    ok (sort (λ a b. lt a.deadline b.deadline) summaries)

  -- The incident among the objects that a flush leaves.
  flushed : Incident → List OrmObject → Incident
  flushed i [] = i
  flushed i (incident j ∷ rest) = j
  flushed i (_ ∷ rest) = flushed i rest

  -- The commit of one new incident: a raise writes nothing.
  insert_flushed :
      Incident
      → List Incident
      → Result (Unit {0}) × List OrmObject
      → Result Incident × List Incident
  unfolding flushed
  insert_flushed i table (ok u, stamped) =
      (ok (flushed i stamped), table ++ (flushed i stamped ∷ []))
  insert_flushed i table (err e, stamped) = (err e, table)

  unfoldable pub create_incident :
      (id : String) (now : DateTime) (ai_system_id : String)
      → IncidentSeverity
      → (description : String) → Date
      → (created_by_user_id : Option String) → List Incident
      → Result Incident × List Incident
  unfolding insert_flushed
  create_incident id now ai_system_id severity description detected_at created_by_user_id table =
      let new : Incident = record {
        id = id;
        tenant_id = none;
        ai_system_id = ai_system_id;
        severity = severity;
        description = description;
        detected_at = detected_at;
        reported_at = none;
        created_at = now;
        created_by_user_id = created_by_user_id;
        resolved_by_user_id = none;
      } in
      insert_flushed new table (stamp_and_verify_writes info (incident new ∷ []) [] [])

  -- `session.get(Incident, incident_id)`, as a select by the primary key
  unfoldable pub get_incident : String → List Incident → Result (Option Incident)
  get_incident incident_id table = do
    found ← select_where engine incidents info (λ i. str_eq i.id incident_id) table
    ok (first found)

  unfoldable pub replace_incident : Incident → List Incident → List Incident
  replace_incident i [] = []
  replace_incident i (j ∷ rest) =
      let others = replace_incident i rest in if str_eq j.id i.id then i ∷ others else j ∷ others

  -- The commit of one changed incident.
  update_flushed :
      Incident → List Incident → Result (Unit {0}) → Result (Option Incident) × List Incident
  unfolding replace_incident
  update_flushed i table (ok u) = (ok (some i), replace_incident i table)
  update_flushed i table (err e) = (err e, table)

  report_found :
      (now : DateTime) (resolved_by_user_id : Option String)
      → List Incident
      → Result (Option Incident)
      → Result (Option Incident) × List Incident
  unfolding update_flushed
  report_found now resolved_by_user_id table (ok (some i)) =
      let changed : Incident = record i {
        reported_at = some now;
        resolved_by_user_id = resolved_by_user_id;
      } in
      update_flushed changed table (stamp_and_verify_writes info [] (incident changed ∷ []) []).0
  report_found now resolved_by_user_id table (ok none) = (ok none, table)
  report_found now resolved_by_user_id table (err e) = (err e, table)

  unfoldable pub mark_reported :
      (now : DateTime) (incident_id : String) (resolved_by_user_id : Option String)
      → List Incident
      → Result (Option Incident) × List Incident
  unfolding report_found
  mark_reported now incident_id resolved_by_user_id table =
      report_found now resolved_by_user_id table (get_incident incident_id table)
