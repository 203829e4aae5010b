-- ===== src/Examples.antt =====
-- Small tables, answers and sessions, at which the properties of the parts are applied.
pub mod Stages
pub mod Findings
pub mod Tenants
pub mod Law
pub mod Limits
pub mod Access
pub mod LogIn
pub mod Recorded
pub mod Reported
pub mod Ingested
use eu_ai_act_compliance.Prelude.{ℕ, String, Bool, true, false, List, [], ◌∷◌, Option, none, some}
use eu_ai_act_compliance.Result.{Result, ok}
use eu_ai_act_compliance.Calendar.{Date, on}
use eu_ai_act_compliance.Schemas.Floats.{Float, nonnegative}
use eu_ai_act_compliance.Schemas.Facts.{ExtractedFacts}
use eu_ai_act_compliance.Schemas.Enums.Category.{
  ClassificationCategory, scope, prohibited_practices, high_risk, gpai, transparency,
}
use eu_ai_act_compliance.Schemas.Enums.State.{ClassificationState, yes_state, no_state}
use eu_ai_act_compliance.Schemas.Classification.{
  CitedRequirement, CategoryClassification, ClassificationResult,
}
use eu_ai_act_compliance.Persistence.Models.{LegalProvision, Requirement, ApplicabilityCondition}
use eu_ai_act_compliance.Legal.Store.{LegalStore}
use eu_ai_act_compliance.Legal.Queries.{RequirementResult}
use eu_ai_act_compliance.Retrieval.{RetrievedRequirement}

abbrev pub in_2025 : Date
in_2025 = on 2025 2 2

abbrev pub article_five : LegalProvision
article_five = record {
  id = "p1";
  source_document_id = "d1";
  citation = "Article 5";
  heading = none;
  text = "The following AI practices shall be prohibited.";
  effective_date = in_2025;
  version = 1;
  superseded_by_id = none;
  created_at = 0;
}

abbrev pub prohibition : Requirement
prohibition = record {
  id = "r1";
  requirement_key = "EU-AI-ACT-ART5";
  version = 1;
  summary = "Prohibited practices";
  primary_provision_id = "p1";
  superseded_by_id = none;
  created_at = 0;
}

abbrev pub from_2025 : ApplicabilityCondition
from_2025 = record {
  id = "c1";
  requirement_id = "r1";
  actor_role = none;
  sector = none;
  annex_iii_category = none;
  temporal_start = in_2025;
  temporal_end = none;
}

abbrev pub law : LegalStore
law = record {
  source_documents = [];
  legal_provisions = article_five ∷ [];
  requirements = prohibition ∷ [];
  applicability_conditions = from_2025 ∷ [];
  exceptions = [];
  framework_crosswalks = [];
  provenance_records = [];
}

abbrev pub prohibition_result : RequirementResult
prohibition_result = record {
  requirement_key = "EU-AI-ACT-ART5";
  summary = "Prohibited practices";
  citation = "Article 5";
  provision_text = "The following AI practices shall be prohibited.";
  exceptions = [];
}

abbrev pub candidate : RetrievedRequirement
candidate = record {
  requirement_key = "EU-AI-ACT-ART5";
  summary = "Prohibited practices";
  citation = "Article 5";
  provision_text = "The following AI practices shall be prohibited.";
  exceptions = [];
  relevance_score = record { hits = 0; of_words = 1 };
}

abbrev pub facts : ExtractedFacts
facts = record {
  system_description = "a";
  intended_purpose = "b";
  actor_roles = [];
  sector = none;
  deployment_context = none;
  affected_persons_description = none;
  decisions_or_outcomes_influenced = none;
  technology_description = none;
  human_oversight_description = none;
  uses_biometric_data = none;
  uses_profiling = none;
  is_safety_component_of_regulated_product = none;
  insufficient_information_fields = [];
}

abbrev pub cited : CitedRequirement
cited = record {
  requirement_key = "EU-AI-ACT-ART5";
  citation = "Article 5";
  relevance = "It scores people.";
}

abbrev pub prohibited_yes : CategoryClassification
prohibited_yes = record {
  category = prohibited_practices;
  state = yes_state;
  cited_requirements = cited ∷ [];
  rationale = "Social scoring.";
  confidence = nonnegative 5;
}

abbrev pub answer_no : ClassificationCategory → CategoryClassification
answer_no c = record {
  category = c;
  state = no_state;
  cited_requirements = [];
  rationale = "No.";
  confidence = nonnegative 5;
}

abbrev pub classified : ClassificationResult
classified = record {
  assessments =
      answer_no scope
      ∷ prohibited_yes
      ∷ answer_no high_risk
      ∷ answer_no gpai
      ∷ answer_no transparency
      ∷ [];
}
