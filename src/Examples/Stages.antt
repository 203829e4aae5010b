-- ===== src/Examples/Stages.antt =====
-- The stages of the pipeline on one small system.
use eu_ai_act_compliance.Schemas.Validity
use eu_ai_act_compliance.Prelude.{
  ℕ, String, [], ◌∷◌, ◌≡◌, ◌↔◌, refl, ◌≤◌, some, none, subst, str_eq, if◌then◌else◌,
}
use eu_ai_act_compliance.Result.{Result, ok, err, validation_error}
use eu_ai_act_compliance.Rendering.{plain}
use eu_ai_act_compliance.Persistence.Engine.{in_table_order}
use eu_ai_act_compliance.Schemas.Enums.Category
use eu_ai_act_compliance.Schemas.Enums.Category.{
  ClassificationCategory, scope, prohibited_practices, high_risk, gpai, transparency,
}
use eu_ai_act_compliance.Llm.{LlmCallMetadata, client, generate_structured, ResponseModel}
use eu_ai_act_compliance.Llm.Fake.{fake, programmed}
use eu_ai_act_compliance.Llm.Guarantees.{client-IsSound, counting, calls_bound}
use eu_ai_act_compliance.Schemas.Classification.{
  CategoryClassification, ClassificationResult, validate, classification_fields, cited_fields,
  require_citation_for_affirmative_states, in_cited_states, classification_result,
  require_every_category_exactly_once,
}
use eu_ai_act_compliance.Classification.{
  classify_category, answered, check_answer, verify_citations, insufficient, classify_system,
  assess_category, assess_categories, not_ingested, category_key_prefixes,
}
use eu_ai_act_compliance.Classification.Verdicts.{IsGrounded, classify_category-IsGrounded}
use eu_ai_act_compliance.Prelude.Sort.{sort}
use eu_ai_act_compliance.Calendar.{Date, on, le as le_date}
use eu_ai_act_compliance.Retrieval.{retrieve, starts_with_any}
use eu_ai_act_compliance.Legal.Queries.{find_requirements}
use eu_ai_act_compliance.Schemas.Validity.{classification_result-exactly_once}
use eu_ai_act_compliance.Schemas.Enums.State.{insufficient_information, not_applicable}
use eu_ai_act_compliance.Classification.Total.{with_value, unsure, classify_category_total}
use eu_ai_act_compliance.Classification.System.{classify_system-Assessed, Assessed}
use eu_ai_act_compliance.Classification.Dormant.{HasRequirement, nothing_in_force}
use mathlib.Core.Logic.Or
use mathlib.Core.List.{mem-cons, not-mem-nil}
use eu_ai_act_compliance.Legal.Queries.Filters.{InForceOn}
use eu_ai_act_compliance.Observability.Instrumentation.{instrumented}
use eu_ai_act_compliance.Observability.Instrumentation.Recorded.{Logged, instrumented-Logged}
use eu_ai_act_compliance.Llm.Fake.{FakeState}
use eu_ai_act_compliance.Examples.{law, facts, candidate, prohibited_yes, classified, in_2025}

abbrev decode : String → Result CategoryClassification
decode raw = ok prohibited_yes

classify_category-IsGrounded_example :
    IsGrounded prohibited_practices (candidate ∷ []) prohibited_yes
unfolding client fake classify_category answered check_answer verify_citations validate
    classification_fields cited_fields require_citation_for_affirmative_states in_cited_states
classify_category-IsGrounded_example =
    classify_category-IsGrounded (client fake "m") plain decode (client-IsSound fake "m")
      prohibited_practices facts (candidate ∷ []) (programmed ("x" ∷ [])) prohibited_yes refl

abbrev not_asked : ClassificationCategory → CategoryClassification
not_asked c = unsure c (not_ingested c)

abbrev system_result : ClassificationResult
system_result = record {
  assessments =
      not_asked scope
      ∷ prohibited_yes
      ∷ not_asked high_risk
      ∷ not_asked gpai
      ∷ not_asked transparency
      ∷ [];
}

classify_system-Assessed_example :
    Assessed
      (client fake "m")
      plain
      decode
      in_table_order
      law
      facts
      in_2025
      Category.members
      system_result.assessments
unfolding client fake classify_system assess_categories assess_category classify_category answered
    check_answer verify_citations insufficient validate classification_fields cited_fields
    require_citation_for_affirmative_states in_cited_states classification_result
    require_every_category_exactly_once retrieve find_requirements category_key_prefixes
    Category.value sort le_date starts_with_any
classify_system-Assessed_example =
    classify_system-Assessed (client fake "m") plain decode in_table_order law facts in_2025
      (client-IsSound fake "m") (programmed ("x" ∷ [])) system_result refl

classify_category_total_example :
    (a : CategoryClassification) × ((classify_category
        (client fake "m")
        plain
        decode
        prohibited_practices
        facts
        (candidate ∷ [])
        (programmed ("x" ∷ []))).0
      ≡ ok a)
unfolding client fake validate classification_fields cited_fields
    require_citation_for_affirmative_states in_cited_states
classify_category_total_example =
    classify_category_total (client fake "m") plain decode (client-IsSound fake "m")
      prohibited_practices facts (candidate ∷ []) (programmed ("x" ∷ [])) (with_value _)

abbrev in_2024 : Date
in_2024 = on 2024 2 2

-- The one requirement of the law applies from 2025.
none_in_2024 : ¬ HasRequirement in_table_order law facts prohibited_practices (some in_2024)
unfolding le_date
none_in_2024 x =
    Or.elim (λ u v. absurd u) (mem-cons.0 x.answer.condition_stored)
      (λ e.
        let z = subst (InForceOn (some in_2024)) e x.answer.in_force in absurd (let q = z.0 in cc))
      (λ m. not-mem-nil m)

nothing_in_force_example :
    (a : CategoryClassification) × (assess_category
        (client fake "m")
        plain
        decode
        in_table_order
        law
        facts
        in_2024
        prohibited_practices
        (programmed [])
      ≡ (ok a, programmed []))
    × (a.category ≡ prohibited_practices)
    × ((a.state ≡ not_applicable)
        ↔ ∥ HasRequirement in_table_order law facts prohibited_practices none ∥₁)
    × ((a.state ≡ insufficient_information)
        ↔ (¬ HasRequirement in_table_order law facts prohibited_practices none))
nothing_in_force_example =
    nothing_in_force (client fake "m") plain decode in_table_order law facts in_2024
      prohibited_practices (programmed []) none_in_2024

abbrev picky : ResponseModel CategoryClassification
picky = record {
  name = "CategoryClassification";
  model_validate_json =
      λ raw. if str_eq raw "x" then err (validation_error "e") else ok prohibited_yes;
}

-- a first answer that is turned down and a second one that is taken
abbrev asked_twice : Result (CategoryClassification × LlmCallMetadata) × (FakeState × ℕ)
asked_twice =
    generate_structured (counting fake) "m" CategoryClassification picky "s" "u" "v"
      (programmed ("x" ∷ "y" ∷ []), 0)

abbrev uncounted : Result (CategoryClassification × LlmCallMetadata) × FakeState
uncounted =
    generate_structured fake "m" CategoryClassification picky "s" "u" "v"
      (programmed ("x" ∷ "y" ∷ []))

calls_bound_example :
    (asked_twice.0 ≡ uncounted.0)
    × (asked_twice.1.0 ≡ uncounted.1)
    × (1 ≤ asked_twice.1.1)
    × (asked_twice.1.1 ≤ 2)
calls_bound_example =
    calls_bound fake "m" CategoryClassification picky "s" "u" "v" (programmed ("x" ∷ "y" ∷ [])) 0

classification_result-exactly_once_example :
    (classification_result classified.assessments ≡ ok classified)
    ↔ ((c : ClassificationCategory) → Validity.count c classified.assessments ≡ 1)
classification_result-exactly_once_example =
    classification_result-exactly_once classified.assessments

abbrev no_time : FakeState → ℕ
no_time s = 0

abbrev no_latency : FakeState → FakeState → ℕ
no_latency s s' = 0

instrumented-Logged_example :
    let (r, (after, records)) =
      (instrumented no_time no_latency (client fake "m")).generate_structured CategoryClassification
        picky "s" "u" "v"
        (programmed ("x" ∷ "y" ∷ []), []) in
    (r
      ≡ ((client fake "m").generate_structured CategoryClassification picky "s" "u" "v"
          (programmed ("x" ∷ "y" ∷ []))).0)
    × (after
        ≡ ((client fake "m").generate_structured CategoryClassification picky "s" "u" "v"
            (programmed ("x" ∷ "y" ∷ []))).1)
    × Logged [] records r
instrumented-Logged_example =
    instrumented-Logged no_time no_latency (client fake "m") CategoryClassification picky "s" "u"
      "v" (programmed ("x" ∷ "y" ∷ [])) []
