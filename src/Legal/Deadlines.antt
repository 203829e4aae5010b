-- ===== src/Legal/Deadlines.antt =====
-- src/legal/deadlines.py: when a system is due for re-assessment, and when a category will apply. The
-- database's LIKE and the decoder of a stored classification are parameters.
pub mod Months
pub mod Earliest
use eu_ai_act_compliance.Prelude.{
  ℕ, ◌+◌, ◌-◌, ◌/◌, ◌%◌, min, String, Bool, true, false, not, ◌&&◌, List, [], ◌∷◌, map, any, Option,
  none, some, ltb, str_eq, is_some, is_empty, first, if◌then◌else◌,
}
use eu_ai_act_compliance.Prelude.Sort.{sort}
use eu_ai_act_compliance.Result.{Result, ok, err, ◌>>=◌}
use eu_ai_act_compliance.Calendar.{Date, date, days_in_month, lt, le}
use eu_ai_act_compliance.Schemas.Enums.Category
use eu_ai_act_compliance.Schemas.Enums.State
use eu_ai_act_compliance.Schemas.Enums.State.{not_applicable}
use eu_ai_act_compliance.Schemas.Classification.{CategoryClassification, ClassificationResult}
use eu_ai_act_compliance.Persistence.Engine.{Engine}
use eu_ai_act_compliance.Persistence.Models.{
  AiSystem, ApplicabilityCondition, AssessmentRecord, Requirement,
}
use eu_ai_act_compliance.Persistence.Tenancy.{SessionInfo, Mapper, select_where}
use eu_ai_act_compliance.Observability.Retention.{assessment_records}
use eu_ai_act_compliance.Legal.Store.{LegalStore}
use eu_ai_act_compliance.Legal.Queries.{product, is_current}
use eu_ai_act_compliance.Classification.{category_key_prefixes}

abbrev pub reassessment_interval_months : ℕ
reassessment_interval_months = 12

-- `_add_months`
unfoldable pub add_months : Date → ℕ → Result Date
add_months d months =
    let month_index = d.month - 1 + months in
    let year = d.year + month_index / 12 in
    let month = month_index % 12 + 1 in date year month (min d.day (days_in_month year month))

pub record UpcomingApplicability : Type 0 where
  pub category : String
  pub becomes_applicable_on : Date

pub record SystemDeadlines : Type 0 where
  pub ai_system_id : String
  pub ai_system_name : String
  pub latest_assessment_id : String
  pub latest_as_of : Date
  pub reassessment_due_on : Date
  pub is_overdue : Bool
  pub upcoming_applicability : List UpcomingApplicability

-- The class `AISystem`, as the tenant filter sees it.
unfoldable pub ai_systems : Mapper AiSystem
ai_systems = record { tablename = "ai_systems"; is_tenant_scoped = true; owner = λ s. s.tenant_id }

unfoldable pub name_of : Option AiSystem → String
name_of none = "(unknown system)"
name_of (some system) = system.name

module _ (engine : Engine) (like_prefix : (prefix key : String) → Bool) (store : LegalStore) where
  -- The WHERE clause of `_next_applicable_date`
  unfoldable pub not_yet_applicable :
      (prefixes : List String) (after : Date) → ApplicabilityCondition × Requirement → Bool
  not_yet_applicable prefixes after (c, r) =
      str_eq r.id c.requirement_id
      && is_current r
      && lt after c.temporal_start
      && any (λ p. like_prefix p r.requirement_key) prefixes

  -- `_next_applicable_date`
  unfoldable pub next_applicable_date : (prefixes : List String) (after : Date) → Option Date
  unfolding not_yet_applicable
  next_applicable_date prefixes after =
      if is_empty prefixes
      then none
      else first (
          engine.order_by Date lt (
            map (λ (c, r). c.temporal_start)
              (engine.rows (ApplicabilityCondition × Requirement)
                (not_yet_applicable prefixes after)
                (product store.applicability_conditions store.requirements))))

  -- The loop over the assessments of `compute_deadlines_for_system`
  unfoldable pub upcoming_of :
      (after : Date) → List CategoryClassification → List UpcomingApplicability
  upcoming_of after [] = []
  upcoming_of after (a ∷ rest) =
      let later = upcoming_of after rest in
      if State.eq a.state not_applicable
      then elim (next_applicable_date (category_key_prefixes a.category) after) [
        | none ↦ later
        | some day ↦
            record { category = Category.value a.category; becomes_applicable_on = day } ∷ later
      ]
      else later

  module _ (load_classification : String → Result ClassificationResult) (info : SessionInfo)
      (systems : List AiSystem) (records : List AssessmentRecord) (today : Date) where
    deadlines_of_latest : String → Option AssessmentRecord → Result (Option SystemDeadlines)
    unfolding add_months upcoming_of name_of
    deadlines_of_latest ai_system_id none = ok none
    deadlines_of_latest ai_system_id (some latest) = do
      found ← select_where engine ai_systems info (λ s. str_eq s.id ai_system_id) systems
      classification ← load_classification latest.classification_json
      due_on ← add_months latest.as_of reassessment_interval_months
      ok (
          some (record {
            ai_system_id = ai_system_id;
            ai_system_name = name_of (first found);
            latest_assessment_id = latest.id;
            latest_as_of = latest.as_of;
            reassessment_due_on = due_on;
            is_overdue = le due_on today;
            upcoming_applicability = upcoming_of latest.as_of classification.assessments;
          }))

    unfoldable pub compute_deadlines_for_system :
        (ai_system_id : String) → Result (Option SystemDeadlines)
    unfolding deadlines_of_latest
    compute_deadlines_for_system ai_system_id = do
      found ←
          select_where engine assessment_records info
            (λ r. elim r.ai_system_id [ none ↦ false | some id ↦ str_eq id ai_system_id ]) records
      deadlines_of_latest ai_system_id
          (first (engine.order_by AssessmentRecord (λ a b. ltb b.created_at a.created_at) found))

    -- The loop of `list_all_deadlines`
    unfoldable pub deadlines_of : List AiSystem → Result (List SystemDeadlines)
    unfolding compute_deadlines_for_system
    deadlines_of [] = ok []
    deadlines_of (s ∷ rest) = do
      deadlines ← compute_deadlines_for_system s.id
      later ← deadlines_of rest
      ok (elim deadlines [ none ↦ later | some d ↦ d ∷ later ])

    unfoldable pub list_all_deadlines : Result (List SystemDeadlines)
    unfolding deadlines_of
    list_all_deadlines = do
      found ← select_where engine ai_systems info (λ s. true) systems
      results ← deadlines_of found
      ok (sort (λ a b. lt a.reassessment_due_on b.reassessment_due_on) results)
