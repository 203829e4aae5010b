-- ===== src/Obligations.antt =====
-- src/obligations/mapping.py: from a classification to the obligations that attach.
pub mod Attached
use eu_ai_act_compliance.Prelude.{
  String, Bool, true, false, Option, none, some, List, [], ◌∷◌, ◌++◌, if◌then◌else◌,
}
use eu_ai_act_compliance.Result.{Result, ok, ◌>>=◌}
use eu_ai_act_compliance.Persistence.Engine.{Engine}
use eu_ai_act_compliance.Legal.Store.{LegalStore}
use eu_ai_act_compliance.Legal.Queries.{RequirementResult, find_requirement_by_key}
use eu_ai_act_compliance.Schemas.Enums.Category.{
  ClassificationCategory, high_risk, prohibited_practices,
}
use eu_ai_act_compliance.Schemas.Enums.State.{ClassificationState, yes_state, possibly}
use eu_ai_act_compliance.Schemas.Classification.{
  CitedRequirement, CategoryClassification, ClassificationResult, for_category,
}

-- `state in TRIGGERING_STATES`
unfoldable pub in_triggering_states : ClassificationState → Bool
in_triggering_states yes_state = true
in_triggering_states possibly = true
in_triggering_states _ = false

abbrev pub high_risk_obligation_keys : List String
high_risk_obligation_keys =
    "EU-AI-ACT-ART9" ∷ "EU-AI-ACT-ART10" ∷ "EU-AI-ACT-ART11" ∷ "EU-AI-ACT-ART12" ∷ "EU-AI-ACT-ART13"
    ∷ "EU-AI-ACT-ART14" ∷ "EU-AI-ACT-ART15" ∷ "GDPR-ART22" ∷ "GDPR-ART35" ∷ []

abbrev pub prohibited_practice_cease_key : String
prohibited_practice_cease_key = "EU-AI-ACT-CEASE-PROHIBITED-PRACTICE"

pub record Obligation : Type 0 where
  pub requirement_key : String
  pub citation : String
  pub summary : String
  pub triggered_by : ClassificationCategory

unfoldable pub of_requirement : RequirementResult → Obligation
of_requirement requirement = record {
  requirement_key = requirement.requirement_key;
  citation = requirement.citation;
  summary = requirement.summary;
  triggered_by = high_risk;
}

abbrev pub first_citation : List CitedRequirement → String
first_citation [] = "Article 5"
first_citation (c ∷ cs) = c.citation

unfoldable pub cease_obligation : CategoryClassification → Obligation
cease_obligation prohibited = record {
  requirement_key = prohibited_practice_cease_key;
  citation = first_citation prohibited.cited_requirements;
  summary =
      "This AI practice is prohibited: it must not be placed on the market, put into service, or used.";
  triggered_by = prohibited_practices;
}

module _ (engine : Engine) (store : LegalStore) where
  -- `if requirement is not None: obligations.append(...)`
  abbrev pub appended : Option RequirementResult → List Obligation → List Obligation
  appended none rest = rest
  appended (some requirement) rest = of_requirement requirement ∷ rest

  -- The loop over the keys.
  unfoldable pub attach : List String → List Obligation
  unfolding of_requirement
  attach [] = []
  attach (key ∷ keys) = appended (find_requirement_by_key engine store key) (attach keys)

  unfoldable pub map_obligations : ClassificationResult → Result (List Obligation)
  unfolding cease_obligation in_triggering_states
  map_obligations classification_result = do
    high ← for_category classification_result high_risk
    let attached = if in_triggering_states high.state then attach high_risk_obligation_keys else []
    prohibited ← for_category classification_result prohibited_practices
    ok (
        if in_triggering_states prohibited.state
        then attached ++ cease_obligation prohibited ∷ []
        else attached)
