-- ===== src/Classification.antt =====
-- src/classification/ and prompts/classifier/v1.py: from the facts about a system to a
-- classification of each category.
pub mod Prompt
pub mod Verdicts
pub mod Total
pub mod System
pub mod Dormant
use eu_ai_act_compliance.Prelude.{
  String, Bool, true, false, not, Option, none, some, List, [], ◌∷◌, map, filter, first, is_empty,
  contains, join, ◌+s◌, if◌then◌else◌,
}
use eu_ai_act_compliance.Result.{
  Exception, structured_output_error, Result, ok, err, ◌>>=◌ as and_then,
}
use eu_ai_act_compliance.Exec.{Exec, pure, raise, lift, continue, ◌>>=◌, ◌>>◌}
use eu_ai_act_compliance.Rendering.{Rendering}
use eu_ai_act_compliance.Calendar.{Date}
use eu_ai_act_compliance.Calendar.Iso.{isoformat}
use eu_ai_act_compliance.Llm.{LlmCallMetadata, ResponseModel, LlmClient}
use eu_ai_act_compliance.Persistence.Engine.{Engine}
use eu_ai_act_compliance.Legal.Store.{LegalStore}
use eu_ai_act_compliance.Retrieval.{RetrievedRequirement, retrieve}
use eu_ai_act_compliance.Schemas.Facts.{ExtractedFacts}
use eu_ai_act_compliance.Schemas.Floats.{zero, one}
use eu_ai_act_compliance.Schemas.Enums.Category
use eu_ai_act_compliance.Schemas.Enums.Category.{
  ClassificationCategory, scope, prohibited_practices, high_risk, gpai, transparency,
}
use eu_ai_act_compliance.Schemas.Enums.State.{insufficient_information, not_applicable}
use eu_ai_act_compliance.Schemas.Classification.{
  CitedRequirement, CategoryClassification, ClassificationResult, validate, classification_result,
}
use eu_ai_act_compliance.Classification.Prompt.{prompt_version, system_prompt, build_user_prompt}

-- `CATEGORY_KEY_PREFIXES`
unfoldable pub category_key_prefixes : ClassificationCategory → List String
category_key_prefixes scope = []
category_key_prefixes prohibited_practices = "EU-AI-ACT-ART5" ∷ []
category_key_prefixes high_risk = "EU-AI-ACT-ART6" ∷ "EU-AI-ACT-ANNEXIII" ∷ []
category_key_prefixes gpai = []
category_key_prefixes transparency = []

abbrev pub keys : List RetrievedRequirement → List String
keys candidates = map (λ c. c.requirement_key) candidates

unfoldable pub verify_citations :
    Rendering → CategoryClassification → List RetrievedRequirement → List String
unfolding contains
verify_citations rendering classification candidates =
    map (λ cited. "cited unretrieved requirement_key " +s rendering.repr cited.requirement_key)
      (filter (λ cited. not (contains cited.requirement_key (keys candidates)))
        classification.cited_requirements)

-- `_insufficient_information`
unfoldable pub insufficient : ClassificationCategory → String → Result CategoryClassification
insufficient category rationale = validate (record {
  category = category;
  state = insufficient_information;
  cited_requirements = [];
  rationale = rationale;
  confidence = zero;
})

abbrev pub not_ingested : ClassificationCategory → String
not_ingested category =
    "No legal requirements ingested for category=" +s Category.value category +s " yet."

abbrev pub none_in_force : ClassificationCategory → Date → String
none_in_force category as_of =
    "Legal requirements exist for category="
    +s Category.value category
    +s " but none are in force as of "
    +s isoformat as_of
    +s "."

-- `_not_yet_in_force`
unfoldable pub not_yet_in_force : ClassificationCategory → Date → Result CategoryClassification
not_yet_in_force category as_of = validate (record {
  category = category;
  state = not_applicable;
  cited_requirements = [];
  rationale = none_in_force category as_of;
  confidence = one;
})

-- `CategoryClassification.model_validate_json`, over the parser of JSON into the typed fields
abbrev pub classification_model :
    (String → Result CategoryClassification) → ResponseModel CategoryClassification
classification_model decode = record {
  name = "CategoryClassification";
  model_validate_json = λ raw. and_then (decode raw) validate;
}

abbrev pub wrong_category : ClassificationCategory → CategoryClassification → String
wrong_category category classification =
    "Model returned classification for category="
    +s Category.value classification.category
    +s ", expected "
    +s Category.value category
    +s "; failing closed."

abbrev pub unverified : CategoryClassification → List String → String
unverified classification problems =
    classification.rationale +s " [citation verification failed: " +s join "; " problems +s "]"

-- The tests behind the call: the category that was asked for, and the citations.
unfoldable pub check_answer :
    Rendering
    → ClassificationCategory
    → List RetrievedRequirement
    → CategoryClassification
    → Result CategoryClassification
check_answer rendering category candidates classification =
    if not (Category.eq classification.category category)
    then insufficient category (wrong_category category classification)
    else let problems = verify_citations rendering classification candidates in
      if not (is_empty problems)
      then insufficient category (unverified classification problems)
      else ok classification

module _ {S : Type 0} (client : LlmClient S) (rendering : Rendering)
    (decode : String → Result CategoryClassification) where
  -- The outcome of the call: its value, or what `except StructuredOutputError` makes of it.
  unfoldable pub answered :
      ClassificationCategory
      → List RetrievedRequirement
      → Result (CategoryClassification × LlmCallMetadata)
      → Result CategoryClassification
  answered category candidates (ok (classification, _)) =
      check_answer rendering category candidates classification
  answered category candidates (err (structured_output_error _ _)) =
      insufficient category "Model output failed schema validation twice; failing closed."
  answered category candidates (err e) = err e

  abbrev pub ask :
      ClassificationCategory
      → ExtractedFacts
      → List RetrievedRequirement
      → Exec S (CategoryClassification × LlmCallMetadata)
  ask category facts candidates =
      client.generate_structured CategoryClassification (classification_model decode)
        (system_prompt rendering) (build_user_prompt rendering category facts candidates)
        prompt_version

  unfoldable pub classify_category :
      ClassificationCategory
      → ExtractedFacts
      → List RetrievedRequirement
      → Exec S CategoryClassification
  unfolding answered
  classify_category category facts candidates s =
      if is_empty candidates
      then (
        insufficient category (
            "No ingested legal requirements available for category="
            +s Category.value category
            +s "."),
        s,
      )
      else let (r, s') = ask category facts candidates s in (answered category candidates r, s')

  module _ (engine : Engine) (store : LegalStore) (facts : ExtractedFacts) (as_of : Date) where
    -- `retrieve` for the first role of the system alone, or for any where it has none.
    abbrev pub candidates_for : List String → Option Date → List RetrievedRequirement
    candidates_for prefixes day =
        retrieve engine store (facts.system_description +s " " +s facts.intended_purpose) none
          (first facts.actor_roles) day (some prefixes) 10

    -- One round of the loop of `classify_system`.
    unfoldable pub assess_category : ClassificationCategory → Exec S CategoryClassification
    assess_category category s =
        let prefixes = category_key_prefixes category in
        let nothing_ingested = insufficient category (not_ingested category) in
        if is_empty prefixes
        then (nothing_ingested, s)
        else let candidates = candidates_for prefixes (some as_of) in
          if is_empty candidates
          then (
            (if is_empty (candidates_for prefixes none)
                then nothing_ingested
                else not_yet_in_force category as_of),
            s,
          )
          else classify_category category facts candidates s

    unfoldable pub assess_categories :
        List ClassificationCategory → Exec S (List CategoryClassification)
    assess_categories [] = pure []
    assess_categories (category ∷ rest) = do
      assessment ← assess_category category
      assessments ← assess_categories rest
      pure (assessment ∷ assessments)

    unfoldable pub classify_system : Exec S ClassificationResult
    classify_system = do
      assessments ← assess_categories Category.members
      lift (classification_result assessments)
