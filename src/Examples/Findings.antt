-- ===== src/Examples/Findings.antt =====
-- Obligations, evidence, gaps and flags of one small system.
use mathlib.Core.List.{mem-cons_self}
use eu_ai_act_compliance.Prelude.{true, ◌||◌, [], ◌∷◌, map, any, none, ◌≡◌, ◌↔◌, refl, Mem}
use eu_ai_act_compliance.Result.{ok}
use eu_ai_act_compliance.Rendering.{plain}
use eu_ai_act_compliance.Persistence.Engine.{in_table_order}
use eu_ai_act_compliance.Schemas.Enums.Category.{high_risk}
use eu_ai_act_compliance.Schemas.Enums.Dimension
use eu_ai_act_compliance.Schemas.Enums.EvidenceStatus.{compliant}
use eu_ai_act_compliance.Schemas.Classification.{for_category}
use eu_ai_act_compliance.Schemas.Evidence.{
  EvidenceAssessment, validate, assessment_fields, dimensions_cover_all_seven_exactly_once,
  compliant_status_requires_all_dimensions_met,
}
use eu_ai_act_compliance.Llm.{client}
use eu_ai_act_compliance.Llm.Fake.{fake, programmed}
use eu_ai_act_compliance.Llm.Guarantees.{client-IsSound}
use eu_ai_act_compliance.Obligations.{Obligation, map_obligations, cease_obligation}
use eu_ai_act_compliance.Obligations.Attached.{Owed, map_obligations_iff}
use eu_ai_act_compliance.Evidence.{assess_all_obligations, assess_evidence}
use eu_ai_act_compliance.Evidence.Assessed.{AllFaithful, assess_all_obligations-AllFaithful}
use eu_ai_act_compliance.Gaps.{gap_of, compute_gaps, assessment_for}
use eu_ai_act_compliance.Gaps.Coverage.{IsMet, is_compliant_iff, gap_unless_met}
use eu_ai_act_compliance.Review.{determine_review_flags, high_impact_prohibited_practice}
use eu_ai_act_compliance.Review.Triggers.{
  raises, classification_calls_for, evidence_calls_for, raises-determine_review_flags,
}
use eu_ai_act_compliance.Examples.{law, prohibited_yes, answer_no, classified}

abbrev pub cease : Obligation
cease = cease_obligation prohibited_yes

map_obligations_iff_example :
    Mem cease (cease ∷ []) ↔ ∥ Owed in_table_order law (answer_no high_risk) prohibited_yes cease ∥₁
unfolding map_obligations for_category
map_obligations_iff_example =
    map_obligations_iff in_table_order law classified (answer_no high_risk) prohibited_yes refl refl
      (cease ∷ []) refl cease

abbrev pub ceased : EvidenceAssessment
ceased = record {
  requirement_key = "EU-AI-ACT-CEASE-PROHIBITED-PRACTICE";
  status = compliant;
  dimensions = map (λ d. record { dimension = d; met = true; note = "Shown." }) Dimension.members;
  rationale = "The practice has ended.";
  contradictions = [];
}

assess_all_obligations-AllFaithful_example :
    AllFaithful
      (client fake "m")
      plain
      (λ raw. ok ceased)
      (cease ∷ [])
      (("EU-AI-ACT-CEASE-PROHIBITED-PRACTICE", "Shut down.") ∷ [])
      (ceased ∷ [])
unfolding client fake assess_all_obligations assess_evidence validate cease_obligation
    assessment_fields dimensions_cover_all_seven_exactly_once
    compliant_status_requires_all_dimensions_met
assess_all_obligations-AllFaithful_example =
    assess_all_obligations-AllFaithful (client fake "m") plain (λ raw. ok ceased)
      (client-IsSound fake "m") (cease ∷ [])
      (("EU-AI-ACT-CEASE-PROHIBITED-PRACTICE", "Shut down.") ∷ []) (programmed ("x" ∷ []))
      (ceased ∷ []) refl

unmet : ¬ IsMet [] cease
unfolding assessment_for
unmet met = let k = (is_compliant_iff [] cease).1 met in cc

gap_unless_met_example : Mem (gap_of cease none) (compute_gaps (cease ∷ []) [])
unfolding assessment_for
gap_unless_met_example = gap_unless_met (cease ∷ []) [] cease mem-cons_self unmet

raises-determine_review_flags_example :
    raises high_impact_prohibited_practice (determine_review_flags plain classified (ceased ∷ []))
    ≡ (any (classification_calls_for high_impact_prohibited_practice) classified.assessments
        || any (evidence_calls_for high_impact_prohibited_practice) (ceased ∷ []))
raises-determine_review_flags_example =
    raises-determine_review_flags plain high_impact_prohibited_practice classified (ceased ∷ [])
