-- ===== src/Legal/UpdateAlerts.antt =====
-- src/legal/update_alerts.py: which systems were last assessed against a requirement that was amended
-- since. The decoders of the stored JSON are parameters. A set is a list without repetitions.
pub mod Amended
use Prim.Native.Char.{code}
use eu_ai_act_compliance.Prelude.{
  ℕ, String, Bool, true, false, ◌&&◌, ◌||◌, ◌==◌, List, [], ◌∷◌, ◌++◌, map, Option, none, some, ltb,
  str_eq, contains, is_empty, first, if◌then◌else◌,
}
use eu_ai_act_compliance.Prelude.Sort.{sort}
use eu_ai_act_compliance.Result.{Result, ok, err, ◌>>=◌}
use eu_ai_act_compliance.Calendar.{DateTime}
use eu_ai_act_compliance.Schemas.Classification.{
  CitedRequirement, CategoryClassification, ClassificationResult,
}
use eu_ai_act_compliance.Persistence.Engine.{Engine}
use eu_ai_act_compliance.Persistence.Models.{AiSystem, AssessmentRecord, Requirement}
use eu_ai_act_compliance.Persistence.Tenancy.{SessionInfo, select_where}
use eu_ai_act_compliance.Observability.Retention.{assessment_records}
use eu_ai_act_compliance.Legal.Store.{LegalStore}
use eu_ai_act_compliance.Legal.Deadlines.{ai_systems, name_of}

pub record UpdateAlert : Type 0 where
  pub ai_system_id : String
  pub ai_system_name : String
  pub assessment_id : String
  pub outdated_requirement_keys : List String

-- `a < b` for texts, which compares code points
unfoldable pub str_lt : String → String → Bool
str_lt String.[] String.[] = false
str_lt String.[] (String.◌∷◌ d t) = true
str_lt (String.◌∷◌ c s) String.[] = false
str_lt (String.◌∷◌ c s) (String.◌∷◌ d t) =
    let rest = str_lt s t in ltb (code c) (code d) || (code c == code d && rest)

-- `set(items)`
unfoldable pub distinct : List String → List String
unfolding contains
distinct [] = []
distinct (x ∷ xs) = let rest = distinct xs in if contains x rest then rest else x ∷ rest

-- `{c.requirement_key for a in assessments for c in a.cited_requirements}`
unfoldable pub cited_keys : List CategoryClassification → List String
cited_keys [] = []
cited_keys (a ∷ rest) = map (λ c. c.requirement_key) a.cited_requirements ++ cited_keys rest

module _ (engine : Engine) (store : LegalStore) where
  unfoldable pub find_outdated_requirement_keys :
      (requirement_keys : List String) (as_of : DateTime) → List String
  unfolding distinct
  find_outdated_requirement_keys requirement_keys as_of =
      if is_empty requirement_keys
      then []
      else distinct (
          map (λ r. r.requirement_key)
            (engine.rows Requirement
              (λ r. contains r.requirement_key requirement_keys && ltb as_of r.created_at)
              store.requirements))

  module _ (load_classification : String → Result ClassificationResult)
      (load_obligation_keys : String → Result (List String)) (info : SessionInfo)
      (systems : List AiSystem) (records : List AssessmentRecord) where
    -- `_requirement_keys_cited_by`
    unfoldable pub requirement_keys_cited_by : AssessmentRecord → Result (List String)
    unfolding distinct cited_keys
    requirement_keys_cited_by record_ = do
      classification ← load_classification record_.classification_json
      obligation_keys ← load_obligation_keys record_.obligations_json
      ok (distinct (cited_keys classification.assessments ++ obligation_keys))

    alert_of :
        (ai_system_id : String)
        → AssessmentRecord
        → (outdated : List String) → Result (Option UpdateAlert)
    unfolding name_of str_lt
    alert_of ai_system_id latest [] = ok none
    alert_of ai_system_id latest (key ∷ keys) = do
      found ← select_where engine ai_systems info (λ s. str_eq s.id ai_system_id) systems
      ok (
          some (record {
            ai_system_id = ai_system_id;
            ai_system_name = name_of (first found);
            assessment_id = latest.id;
            outdated_requirement_keys = sort str_lt (key ∷ keys);
          }))

    check_latest : String → Option AssessmentRecord → Result (Option UpdateAlert)
    unfolding alert_of
    check_latest ai_system_id none = ok none
    check_latest ai_system_id (some latest) = do
      keys ← requirement_keys_cited_by latest
      alert_of ai_system_id latest (find_outdated_requirement_keys keys latest.created_at)

    unfoldable pub check_ai_system_for_updates :
        (ai_system_id : String) → Result (Option UpdateAlert)
    unfolding check_latest
    check_ai_system_for_updates ai_system_id = do
      found ←
          select_where engine assessment_records info
            (λ r. elim r.ai_system_id [ none ↦ false | some id ↦ str_eq id ai_system_id ]) records
      check_latest ai_system_id
          (first (engine.order_by AssessmentRecord (λ a b. ltb b.created_at a.created_at) found))

    -- The loop of `list_update_alerts`
    unfoldable pub alerts_of : List AiSystem → Result (List UpdateAlert)
    unfolding check_ai_system_for_updates
    alerts_of [] = ok []
    alerts_of (s ∷ rest) = do
      alert ← check_ai_system_for_updates s.id
      later ← alerts_of rest
      ok (elim alert [ none ↦ later | some a ↦ a ∷ later ])

    unfoldable pub list_update_alerts : Result (List UpdateAlert)
    unfolding alerts_of
    list_update_alerts = do
      found ← select_where engine ai_systems info (λ s. true) systems
      alerts_of found
