-- ===== src/Review.antt =====
-- src/review/triggers.py: when a person has to look at the result.
pub mod Triggers
use eu_ai_act_compliance.Prelude.{
  ℕ, String, Bool, true, false, not, ◌&&◌, List, [], ◌∷◌, ◌++◌, is_empty, join, ◌+s◌,
  ◌==◌ as nat_eq, if◌then◌else◌,
}
use eu_ai_act_compliance.Rendering.{Rendering}
use eu_ai_act_compliance.Schemas.Floats.{lt, three_fifths}
use eu_ai_act_compliance.Schemas.Enums.Category
use eu_ai_act_compliance.Schemas.Enums.Category.{prohibited_practices, high_risk}
use eu_ai_act_compliance.Schemas.Enums.State
use eu_ai_act_compliance.Schemas.Enums.State.{
  ClassificationState, yes_state, possibly, insufficient_information, not_applicable,
}
use eu_ai_act_compliance.Schemas.Enums.EvidenceStatus
use eu_ai_act_compliance.Schemas.Enums.EvidenceStatus.{
  EvidenceStatus, insufficient_evidence, non_compliant, partially_compliant,
}
use eu_ai_act_compliance.Schemas.Classification.{CategoryClassification, ClassificationResult}
use eu_ai_act_compliance.Schemas.Evidence.{EvidenceAssessment}

-- `state in _HIGH_IMPACT_STATES`
unfoldable pub in_high_impact_states : ClassificationState → Bool
in_high_impact_states yes_state = true
in_high_impact_states possibly = true
in_high_impact_states _ = false

-- `state in _UNRESOLVED_STATES`
unfoldable pub in_unresolved_states : ClassificationState → Bool
in_unresolved_states insufficient_information = true
in_unresolved_states not_applicable = true
in_unresolved_states _ = false

-- `status in _LOW_QUALITY_EVIDENCE_STATUSES`
unfoldable pub in_low_quality_evidence_statuses : EvidenceStatus → Bool
in_low_quality_evidence_statuses insufficient_evidence = true
in_low_quality_evidence_statuses non_compliant = true
in_low_quality_evidence_statuses partially_compliant = true
in_low_quality_evidence_statuses _ = false

pub data ReviewTrigger : Type 0 where
  insufficient low_confidence high_impact_prohibited_practice high_impact_high_risk evidence_gap
        contradiction_detected :
      ReviewTrigger

-- `trigger.value`
unfoldable pub trigger_value : ReviewTrigger → String
trigger_value insufficient = "insufficient_information"
trigger_value low_confidence = "low_confidence"
trigger_value high_impact_prohibited_practice = "high_impact_prohibited_practice"
trigger_value high_impact_high_risk = "high_impact_high_risk"
trigger_value evidence_gap = "evidence_gap"
trigger_value contradiction_detected = "contradiction_detected"

pub record ReviewFlag : Type 0 where
  pub trigger : ReviewTrigger
  pub detail : String

abbrev pub flag : ReviewTrigger → String → ReviewFlag
flag trigger detail = record { trigger = trigger; detail = detail }

-- `assessment.state not in _UNRESOLVED_STATES and assessment.confidence < LOW_CONFIDENCE_THRESHOLD`
unfoldable pub is_unsure : CategoryClassification → Bool
unfolding in_unresolved_states
is_unsure a = not (in_unresolved_states a.state) && lt a.confidence three_fifths

module _ (rendering : Rendering) where
  -- The `if` and `elif` on certainty.
  unfoldable pub certainty_flags : CategoryClassification → List ReviewFlag
  unfolding is_unsure
  certainty_flags a =
      if State.eq a.state insufficient_information
      then flag insufficient (Category.value a.category +s ": " +s a.rationale) ∷ []
      else if is_unsure a
      then flag low_confidence (
          Category.value a.category
          +s ": confidence="
          +s rendering.float_str a.confidence
          +s " below threshold="
          +s rendering.float_str three_fifths)
        ∷ []
      else []

  -- The `if` on impact.
  unfoldable pub impact_flags : CategoryClassification → List ReviewFlag
  unfolding in_high_impact_states
  impact_flags a =
      if in_high_impact_states a.state
      then (if Category.eq a.category prohibited_practices
          then flag high_impact_prohibited_practice a.rationale ∷ []
          else if Category.eq a.category high_risk
          then flag high_impact_high_risk a.rationale ∷ []
          else [])
      else []

  -- `_classification_flags`
  unfoldable pub classification_flags : List CategoryClassification → List ReviewFlag
  classification_flags [] = []
  classification_flags (a ∷ rest) =
      certainty_flags a ++ (impact_flags a ++ classification_flags rest)

-- One round of the loop of `_evidence_flags`.
unfoldable pub assessment_flags : EvidenceAssessment → List ReviewFlag
unfolding in_low_quality_evidence_statuses
assessment_flags a =
    (if in_low_quality_evidence_statuses a.status
      then flag evidence_gap (a.requirement_key +s ": " +s EvidenceStatus.value a.status) ∷ []
      else [])
    ++ (if is_empty a.contradictions
        then []
        else flag contradiction_detected (a.requirement_key +s ": " +s join "; " a.contradictions)
          ∷ [])

-- `_evidence_flags`
unfoldable pub evidence_flags : List EvidenceAssessment → List ReviewFlag
evidence_flags [] = []
evidence_flags (a ∷ rest) = assessment_flags a ++ evidence_flags rest

unfoldable pub determine_review_flags :
    Rendering → ClassificationResult → List EvidenceAssessment → List ReviewFlag
determine_review_flags rendering classification evidence_assessments =
    classification_flags rendering classification.assessments ++ evidence_flags evidence_assessments
