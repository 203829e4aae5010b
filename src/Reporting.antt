-- ===== src/Reporting.antt =====
-- src/reporting/report.py: the report, which restates what the stages concluded.
pub mod Human
use eu_ai_act_compliance.Prelude.{ℕ, String, Bool, List, [], ◌∷◌, ltb, length, ◌+s◌}
use eu_ai_act_compliance.Calendar.{Date}
use eu_ai_act_compliance.Schemas.Facts.{ExtractedFacts}
use eu_ai_act_compliance.Schemas.Classification.{ClassificationResult}
use eu_ai_act_compliance.Schemas.Evidence.{EvidenceAssessment}
use eu_ai_act_compliance.Obligations.{Obligation}
use eu_ai_act_compliance.Gaps.{Gap}
use eu_ai_act_compliance.Review.{ReviewFlag}

pub record ComplianceReport : Type 0 where
  pub facts : ExtractedFacts
  pub as_of : Date
  pub classification : ClassificationResult
  pub obligations : List Obligation
  pub evidence_assessments : List EvidenceAssessment
  pub gaps : List Gap
  pub review_flags : List ReviewFlag
  pub recommended_actions : List String

-- `ComplianceReport.requires_human_review`
unfoldable pub requires_human_review : ComplianceReport → Bool
requires_human_review report = ltb 0 (length report.review_flags)

-- `_recommended_actions`
unfoldable pub recommended_actions_of : List Gap → List String
recommended_actions_of [] = []
recommended_actions_of (gap ∷ rest) =
    ("Provide evidence addressing " +s gap.citation +s " (" +s gap.requirement_key +s "): "
      +s gap.obligation_summary)
    ∷ recommended_actions_of rest

unfoldable pub build_report :
    ExtractedFacts
    → Date
    → ClassificationResult
    → List Obligation
    → List EvidenceAssessment
    → List Gap
    → List ReviewFlag
    → ComplianceReport
unfolding recommended_actions_of
build_report facts as_of classification obligations evidence_assessments gaps review_flags =
    record {
      facts = facts;
      as_of = as_of;
      classification = classification;
      obligations = obligations;
      evidence_assessments = evidence_assessments;
      gaps = gaps;
      review_flags = review_flags;
      recommended_actions = recommended_actions_of gaps;
    }
