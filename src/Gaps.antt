-- ===== src/Gaps.antt =====
-- src/gaps/compute.py: the obligations that the evidence does not show to be met.
pub mod Coverage
use eu_ai_act_compliance.Prelude.{
  String, Bool, true, false, Option, none, some, List, [], ◌∷◌, str_eq, if◌then◌else◌,
}
use eu_ai_act_compliance.Obligations.{Obligation}
use eu_ai_act_compliance.Schemas.Enums.EvidenceStatus
use eu_ai_act_compliance.Schemas.Enums.EvidenceStatus.{
  EvidenceStatus, compliant, insufficient_evidence,
}
use eu_ai_act_compliance.Schemas.Evidence.{EvidenceAssessment}

pub record Gap : Type 0 where
  pub requirement_key : String
  pub citation : String
  pub obligation_summary : String
  pub evidence_status : EvidenceStatus
  pub rationale : String

-- The look-up in `{a.requirement_key: a for a in evidence_assessments}`, where the last assessment
-- with a key is the one that stays.
unfoldable pub assessment_for : String → List EvidenceAssessment → Option EvidenceAssessment
assessment_for key [] = none
assessment_for key (a ∷ rest) = elim (assessment_for key rest) [
  | none ↦ if str_eq a.requirement_key key then some a else none
  | some later ↦ some later
]

abbrev pub is_compliant : Option EvidenceAssessment → Bool
is_compliant none = false
is_compliant (some a) = EvidenceStatus.eq a.status compliant

unfoldable pub gap_of : Obligation → Option EvidenceAssessment → Gap
gap_of obligation none = record {
  requirement_key = obligation.requirement_key;
  citation = obligation.citation;
  obligation_summary = obligation.summary;
  evidence_status = insufficient_evidence;
  rationale = "No evidence assessment available for this obligation.";
}
gap_of obligation (some assessment) = record {
  requirement_key = obligation.requirement_key;
  citation = obligation.citation;
  obligation_summary = obligation.summary;
  evidence_status = assessment.status;
  rationale = assessment.rationale;
}

unfoldable pub compute_gaps : List Obligation → List EvidenceAssessment → List Gap
unfolding assessment_for gap_of
compute_gaps [] assessments = []
compute_gaps (obligation ∷ rest) assessments =
    let assessment = assessment_for obligation.requirement_key assessments in
    let gaps = compute_gaps rest assessments in
    if is_compliant assessment then gaps else gap_of obligation assessment ∷ gaps
