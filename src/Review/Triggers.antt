-- ===== src/Review/Triggers.antt =====
-- Exactly when each trigger is raised.
use eu_ai_act_compliance.Prelude.{
  ℕ, Bool, true, false, not, ◌&&◌, ◌||◌, List, [], ◌∷◌, ◌++◌, any, is_empty, or_assoc, ◌≡◌, refl,
  arith, ◌==◌ as nat_eq,
}
use eu_ai_act_compliance.Rendering.{Rendering}
use eu_ai_act_compliance.Schemas.Enums.Category
use eu_ai_act_compliance.Schemas.Enums.Category.{prohibited_practices, high_risk}
use eu_ai_act_compliance.Schemas.Enums.State.{
  ClassificationState, yes_state, no_state, possibly, insufficient_information, not_applicable,
}
use eu_ai_act_compliance.Schemas.Enums.EvidenceStatus.{
  EvidenceStatus, compliant, partially_compliant, insufficient_evidence, non_compliant,
  not_applicable as not_applicable_evidence,
}
use eu_ai_act_compliance.Schemas.Floats.{lt, three_fifths}
use eu_ai_act_compliance.Schemas.Classification.{CategoryClassification, ClassificationResult}
use eu_ai_act_compliance.Schemas.Evidence.{EvidenceAssessment}
use eu_ai_act_compliance.Review.{
  ReviewTrigger, insufficient, low_confidence, high_impact_prohibited_practice,
  high_impact_high_risk, evidence_gap, contradiction_detected, ReviewFlag, certainty_flags,
  impact_flags, classification_flags, assessment_flags, evidence_flags, determine_review_flags,
}

abbrev index : ReviewTrigger → ℕ
index insufficient = 0
index low_confidence = 1
index high_impact_prohibited_practice = 2
index high_impact_high_risk = 3
index evidence_gap = 4
index contradiction_detected = 5

-- Some flag has the trigger.
abbrev pub raises : ReviewTrigger → List ReviewFlag → Bool
raises t flags = any (λ f. nat_eq (index f.trigger) (index t)) flags

-- A resolved answer, which has a confidence to speak of.
abbrev is_resolved : ClassificationState → Bool
is_resolved yes_state = true
is_resolved no_state = true
is_resolved possibly = true
is_resolved insufficient_information = false
is_resolved not_applicable = false

abbrev is_affirmative : ClassificationState → Bool
is_affirmative yes_state = true
is_affirmative possibly = true
is_affirmative _ = false

abbrev is_unknown : ClassificationState → Bool
is_unknown insufficient_information = true
is_unknown _ = false

-- What the mandate's list of triggers says of one classification.
abbrev pub classification_calls_for : ReviewTrigger → CategoryClassification → Bool
classification_calls_for insufficient a = is_unknown a.state
classification_calls_for low_confidence a = is_resolved a.state && lt a.confidence three_fifths
classification_calls_for high_impact_prohibited_practice a =
    is_affirmative a.state && Category.eq a.category prohibited_practices
classification_calls_for high_impact_high_risk a =
    is_affirmative a.state && Category.eq a.category high_risk
classification_calls_for evidence_gap a = false
classification_calls_for contradiction_detected a = false

abbrev is_weak : EvidenceStatus → Bool
is_weak compliant = false
is_weak partially_compliant = true
is_weak insufficient_evidence = true
is_weak non_compliant = true
is_weak not_applicable_evidence = false

-- What the mandate's list of triggers says of one assessment of evidence.
abbrev pub evidence_calls_for : ReviewTrigger → EvidenceAssessment → Bool
evidence_calls_for evidence_gap a = is_weak a.status
evidence_calls_for contradiction_detected a = not (is_empty a.contradictions)
evidence_calls_for _ a = false

raises-append :
    (t : ReviewTrigger) (xs ys : List ReviewFlag)
    → raises t (xs ++ ys) ≡ (raises t xs || raises t ys)
raises-append t [] ys = refl
raises-append t (x ∷ xs) ys = ground (arith, raises-append t xs ys)

module _ (rendering : Rendering) where
  raises-certainty :
      (t : ReviewTrigger) (a : CategoryClassification)
      → (raises t (certainty_flags rendering a) || raises t (impact_flags rendering a))
        ≡ classification_calls_for t a
  unfolding certainty_flags impact_flags
  raises-certainty insufficient a = ground arith
  raises-certainty _ a = ground arith

  raises-classification_flags :
      (t : ReviewTrigger) (xs : List CategoryClassification)
      → raises t (classification_flags rendering xs) ≡ any (classification_calls_for t) xs
  unfolding classification_flags
  raises-classification_flags t [] = refl
  raises-classification_flags t (a ∷ rest) = rw (
    raises-append t (certainty_flags rendering a)
        (impact_flags rendering a ++ classification_flags rendering rest),
    raises-append t (impact_flags rendering a) (classification_flags rendering rest),
    raises-classification_flags t rest,
    or_assoc (raises t (certainty_flags rendering a)) (raises t (impact_flags rendering a))
        (any (classification_calls_for t) rest),
    raises-certainty t a,
  )

raises-assessment_flags :
    (t : ReviewTrigger) (a : EvidenceAssessment)
    → raises t (assessment_flags a) ≡ evidence_calls_for t a
unfolding assessment_flags
raises-assessment_flags insufficient a = ground arith
raises-assessment_flags _ a = ground arith

raises-evidence_flags :
    (t : ReviewTrigger) (xs : List EvidenceAssessment)
    → raises t (evidence_flags xs) ≡ any (evidence_calls_for t) xs
unfolding evidence_flags
raises-evidence_flags t [] = refl
raises-evidence_flags t (a ∷ rest) = rw (
  raises-append t (assessment_flags a) (evidence_flags rest),
  raises-assessment_flags t a,
  raises-evidence_flags t rest,
)

-- Each trigger is raised exactly when some classification or some assessment of evidence calls for
-- it: an unknown state, a resolved state below the confidence threshold, an affirmative prohibited or
-- high-risk answer, evidence of low quality, and a contradiction.
pub raises-determine_review_flags :
    (rendering : Rendering) (t : ReviewTrigger) (c : ClassificationResult)
    (es : List EvidenceAssessment)
    → raises t (determine_review_flags rendering c es)
      ≡ (any (classification_calls_for t) c.assessments || any (evidence_calls_for t) es)
unfolding determine_review_flags
raises-determine_review_flags rendering t c es = rw (
  raises-append t (classification_flags rendering c.assessments) (evidence_flags es),
  raises-classification_flags rendering t c.assessments,
  raises-evidence_flags t es,
)
