-- ===== src/Reporting/Human.antt =====
-- src/reporting/report.py: which reports ask for a person.
use eu_ai_act_compliance.Prelude.{
  ◌+◌, String, true, ◌||◌, List, [], ◌∷◌, any, ◌≡◌, refl, arith, ltb, length, filter,
}
use eu_ai_act_compliance.Rendering.{Rendering}
use eu_ai_act_compliance.Calendar.{Date}
use eu_ai_act_compliance.Schemas.Facts.{ExtractedFacts}
use eu_ai_act_compliance.Schemas.Classification.{ClassificationResult}
use eu_ai_act_compliance.Schemas.Evidence.{EvidenceAssessment}
use eu_ai_act_compliance.Obligations.{Obligation}
use eu_ai_act_compliance.Gaps.{Gap, compute_gaps, is_compliant}
use eu_ai_act_compliance.Gaps.Coverage.{assessment_of, length-compute_gaps}
use eu_ai_act_compliance.Review.{
  ReviewTrigger, insufficient, low_confidence, high_impact_prohibited_practice,
  high_impact_high_risk, evidence_gap, contradiction_detected, ReviewFlag, determine_review_flags,
}
use eu_ai_act_compliance.Review.Triggers.{
  raises, classification_calls_for, evidence_calls_for, raises-determine_review_flags,
}
use eu_ai_act_compliance.Reporting.{
  ComplianceReport, requires_human_review, recommended_actions_of, build_report,
}

abbrev pub triggers : List ReviewTrigger
triggers =
    insufficient ∷ low_confidence ∷ high_impact_prohibited_practice ∷ high_impact_high_risk
    ∷ evidence_gap ∷ contradiction_detected ∷ []

raises_own :
    (t : ReviewTrigger) (detail : String) (rest : List ReviewFlag)
    → any (λ u. raises u (record { trigger = t; detail = detail } ∷ rest)) triggers ≡ true
raises_own insufficient detail rest = refl
raises_own low_confidence detail rest = ground arith
raises_own high_impact_prohibited_practice detail rest = ground arith
raises_own high_impact_high_risk detail rest = ground arith
raises_own evidence_gap detail rest = ground arith
raises_own contradiction_detected detail rest = ground arith

some_raised : (flags : List ReviewFlag) → ltb 0 (length flags) ≡ any (λ t. raises t flags) triggers
some_raised [] = refl
some_raised (f ∷ rest) =
    let first : any (λ t. raises t (f ∷ rest)) triggers ≡ true =
      raises_own f.trigger f.detail rest in
    rw first (ground arith)

length-recommended_actions : (gaps : List Gap) → length (recommended_actions_of gaps) ≡ length gaps
unfolding recommended_actions_of
length-recommended_actions [] = refl
length-recommended_actions (g ∷ rest) = omega (arith, length-recommended_actions rest)

module _ (rendering : Rendering) (facts : ExtractedFacts) (as_of : Date) (c : ClassificationResult)
    (os : List Obligation) (es : List EvidenceAssessment) where
  -- The report that the route builds from the results of the stages.
  pub report_of : ComplianceReport
  report_of =
      build_report facts as_of c os es (compute_gaps os es) (determine_review_flags rendering c es)

  -- The report of the stages' results asks for human review exactly when some trigger is called for by
  -- a classification or by an assessment of evidence.
  pub requires_human_review_lem :
      requires_human_review report_of
      ≡ any
          (λ t. any (classification_calls_for t) c.assessments || any (evidence_calls_for t) es)
          triggers
  unfolding requires_human_review build_report report_of
  requires_human_review_lem =
      rw
        (
          some_raised (determine_review_flags rendering c es),
          raises-determine_review_flags rendering insufficient c es,
          raises-determine_review_flags rendering low_confidence c es,
          raises-determine_review_flags rendering high_impact_prohibited_practice c es,
          raises-determine_review_flags rendering high_impact_high_risk c es,
          raises-determine_review_flags rendering evidence_gap c es,
          raises-determine_review_flags rendering contradiction_detected c es,
        )
        refl

  -- That report recommends one action for each obligation whose last assessment does not say COMPLIANT:
  -- actions and compliant obligations together are as many as the obligations.
  pub length-report_of :
      length report_of.recommended_actions
        + length (filter (λ o. is_compliant (assessment_of es o)) os)
      ≡ length os
  unfolding build_report report_of
  length-report_of =
      omega (arith, length-recommended_actions (compute_gaps os es), length-compute_gaps os es)
