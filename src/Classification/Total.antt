-- ===== src/Classification/Total.antt =====
-- `classify_category` fails closed: it raises only what the backend raises.
use eu_ai_act_compliance.Prelude.{
  String, true, List, [], ◌∷◌, is_empty, is_nonempty, is_nonempty-append, ◌≡◌, refl, arith, inl,
  inr, Bool-cases,
}
use eu_ai_act_compliance.Result.{structured_output_error, Result, ok, err}
use eu_ai_act_compliance.Rendering.{Rendering}
use eu_ai_act_compliance.Llm.{LlmCallMetadata, LlmClient}
use eu_ai_act_compliance.Llm.Guarantees.{IsSound}
use eu_ai_act_compliance.Retrieval.{RetrievedRequirement}
use eu_ai_act_compliance.Schemas.Facts.{ExtractedFacts}
use eu_ai_act_compliance.Schemas.Floats.{zero}
use eu_ai_act_compliance.Schemas.Enums.Category
use eu_ai_act_compliance.Schemas.Enums.Category.{ClassificationCategory}
use eu_ai_act_compliance.Schemas.Enums.State.{insufficient_information}
use eu_ai_act_compliance.Schemas.Classification.{
  CategoryClassification, validate, classification_fields, require_citation_for_affirmative_states,
}
use eu_ai_act_compliance.Schemas.Validity.{IsValid}
use eu_ai_act_compliance.Classification.{
  verify_citations, wrong_category, unverified, insufficient, check_answer, answered, ask,
  classify_category,
}
use eu_ai_act_compliance.Classification.Verdicts.{validated-IsValid}

abbrev pub unsure : ClassificationCategory → String → CategoryClassification
unsure category rationale = record {
  category = category;
  state = insufficient_information;
  cited_requirements = [];
  rationale = rationale;
  confidence = zero;
}

pub insufficient_lem :
    (category : ClassificationCategory) (rationale : String)
    → is_nonempty rationale ≡ true
    → insufficient category rationale ≡ ok (unsure category rationale)
unfolding insufficient validate classification_fields require_citation_for_affirmative_states
insufficient_lem category rationale h = rw h

check_answer_total :
    (rendering : Rendering) (category : ClassificationCategory)
    (candidates : List RetrievedRequirement) (c : CategoryClassification)
    → IsValid c
    → (a : CategoryClassification) × (check_answer rendering category candidates c ≡ ok a)
unfolding check_answer
check_answer_total rendering category candidates c valid =
    elim (Bool-cases (Category.eq c.category category)) [
      | inr other ↦ (
        unsure category (wrong_category category c),
        rw other (
            insufficient_lem category _
              (is_nonempty-append "Model returned classification for category=" _ refl)),
      )
      | inl same ↦ elim (Bool-cases (is_empty (verify_citations rendering c candidates))) [
        | inr problem ↦ (
          unsure category (unverified c (verify_citations rendering c candidates)),
          rw (same, problem)
              (insufficient_lem category _
                (is_nonempty-append c.rationale _ (has_rationale valid.fields))),
        )
        | inl fine ↦ (c, rw (same, fine))
      ]
    ]
  where
    has_rationale : classification_fields c ≡ true → is_nonempty c.rationale ≡ true
    has_rationale h = unfold classification_fields in ground arith

-- How a call of the client may end: with a value, or with two rejected texts.
pub data Ends {T : Type 0} : Result T → Type 0 where
  with_value : (v : T) → Ends (ok v)
  rejected_twice : (m raw : String) → Ends (err (structured_output_error m raw))

module _ {S : Type 0} (client : LlmClient S) (rendering : Rendering)
    (decode : String → Result CategoryClassification) where
  answered_total :
      (category : ClassificationCategory) (candidates : List RetrievedRequirement)
      (r : Result (CategoryClassification × LlmCallMetadata))
      → ((c : CategoryClassification) (meta : LlmCallMetadata) → r ≡ ok (c, meta) → IsValid c)
      → Ends r
      → (a : CategoryClassification) × (answered client rendering decode category candidates r
          ≡ ok a)
  unfolding answered
  answered_total category candidates r valid (with_value (c, meta)) =
      check_answer_total rendering category candidates c (valid c meta refl)
  answered_total category candidates r valid (rejected_twice m raw) =
      (_, insufficient_lem category _ refl)

  -- Where the call of the model ends with a value or with two rejected texts, the category gets a
  -- classification: no wrong category, bad citation or malformed output raises.
  pub classify_category_total :
      IsSound client
      → (category : ClassificationCategory) (facts : ExtractedFacts)
        (candidates : List RetrievedRequirement) (s : S)
      → Ends (ask client rendering decode category facts candidates s).0
      → (a : CategoryClassification) × ((classify_category client rendering decode category facts
            candidates s).0
          ≡ ok a)
  unfolding classify_category
  classify_category_total sound category facts [] s h = (
    _,
    insufficient_lem category _
        (is_nonempty-append "No ingested legal requirements available for category=" _ refl),
  )
  classify_category_total sound category facts (q ∷ qs) s h =
      answered_total category (q ∷ qs) _
        (validated-IsValid client rendering decode sound category facts (q ∷ qs) s) h
