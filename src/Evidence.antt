-- ===== src/Evidence.antt =====
-- src/evidence/assess.py and prompts/evidence_assessor/v1.py: from an obligation and the evidence
-- for it to an assessment.
pub mod FileIngestion
pub mod Prompt
pub mod Assessed
use eu_ai_act_compliance.Prelude.{
  String, Bool, true, false, not, ◌||◌, Option, none, some, List, [], ◌∷◌, map, is_nonempty, strip,
  str_eq, ◌+s◌, if◌then◌else◌,
}
use eu_ai_act_compliance.Result.{structured_output_error, Result, ok, err, ◌>>=◌ as and_then}
use eu_ai_act_compliance.Exec.{Exec, pure, continue, ◌>>=◌}
use eu_ai_act_compliance.Rendering.{Rendering}
use eu_ai_act_compliance.Llm.{LlmCallMetadata, ResponseModel, LlmClient}
use eu_ai_act_compliance.Obligations.{Obligation}
use eu_ai_act_compliance.Evidence.Prompt.{prompt_version, system_prompt, build_user_prompt}
use eu_ai_act_compliance.Schemas.Enums.Dimension
use eu_ai_act_compliance.Schemas.Enums.EvidenceStatus.{insufficient_evidence}
use eu_ai_act_compliance.Schemas.Evidence.{EvidenceAssessment, validate}

-- `_insufficient_evidence`
unfoldable pub insufficient : Obligation → String → Result EvidenceAssessment
insufficient obligation rationale = validate (record {
  requirement_key = obligation.requirement_key;
  status = insufficient_evidence;
  dimensions =
      map (λ d. record { dimension = d; met = false; note = "Not assessed." }) Dimension.members;
  rationale = rationale;
  contradictions = [];
})

-- `EvidenceAssessment.model_validate_json`, over the parser of JSON into the typed fields
abbrev pub evidence_model : (String → Result EvidenceAssessment) → ResponseModel EvidenceAssessment
evidence_model decode = record {
  name = "EvidenceAssessment";
  model_validate_json = λ raw. and_then (decode raw) validate;
}

abbrev pub no_evidence : Obligation → String
no_evidence obligation = "No evidence supplied for " +s obligation.requirement_key +s "."

abbrev pub wrong_key : Rendering → Obligation → EvidenceAssessment → String
wrong_key rendering obligation assessment =
    "Model returned an assessment for requirement_key="
    +s rendering.repr assessment.requirement_key
    +s ", expected "
    +s rendering.repr obligation.requirement_key
    +s "; failing closed."

-- `not evidence_text or not evidence_text.strip()`
unfoldable pub is_blank : String → Bool
unfolding strip
is_blank text = not (is_nonempty text) || not (is_nonempty (strip text))

-- `evidence_by_key.get(key, "")`
unfoldable pub evidence_of : String → List (String × String) → String
evidence_of key [] = ""
evidence_of key ((k, text) ∷ rest) = if str_eq k key then text else evidence_of key rest

module _ {S : Type 0} (client : LlmClient S) (rendering : Rendering)
    (decode : String → Result EvidenceAssessment) where
  -- The outcome of the call: its value, or what `except StructuredOutputError` makes of it.
  unfoldable pub answered :
      Obligation → Result (EvidenceAssessment × LlmCallMetadata) → Result EvidenceAssessment
  answered obligation (ok (assessment, _)) =
      if not (str_eq assessment.requirement_key obligation.requirement_key)
      then insufficient obligation (wrong_key rendering obligation assessment)
      else ok assessment
  answered obligation (err (structured_output_error _ _)) =
      insufficient obligation "Model output failed schema validation twice; failing closed."
  answered obligation (err e) = err e

  abbrev pub ask : Obligation → String → Exec S (EvidenceAssessment × LlmCallMetadata)
  ask obligation evidence_text =
      client.generate_structured EvidenceAssessment (evidence_model decode)
        (system_prompt rendering) (build_user_prompt obligation evidence_text) prompt_version

  unfoldable pub assess_evidence : Obligation → String → Exec S EvidenceAssessment
  unfolding answered is_blank
  assess_evidence obligation evidence_text s =
      if is_blank evidence_text
      then (insufficient obligation (no_evidence obligation), s)
      else let (r, s') = ask obligation evidence_text s in (answered obligation r, s')

  unfoldable pub assess_all_obligations :
      List Obligation → List (String × String) → Exec S (List EvidenceAssessment)
  unfolding evidence_of
  assess_all_obligations [] evidence_by_key = pure []
  assess_all_obligations (obligation ∷ rest) evidence_by_key = do
    assessment ← assess_evidence obligation (evidence_of obligation.requirement_key evidence_by_key)
    assessments ← assess_all_obligations rest evidence_by_key
    pure (assessment ∷ assessments)
