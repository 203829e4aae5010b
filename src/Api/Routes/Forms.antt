-- ===== src/Api/Routes/Forms.antt =====
-- src/api/routers/assessment.py: what is read from the form of a report. Starlette's form is the list of
-- its items; the extractors of files and the JSON parsers are parameters.
use Prim.Native.Char.{code}
use eu_ai_act_compliance.Prelude.{
  String, List, [], ◌∷◌, ◌++◌, Option, none, some, ◌==◌, str_eq, strip, is_nonempty, ◌+s◌,
  if◌then◌else◌,
}
use eu_ai_act_compliance.Result.{
  Exception, key_error, type_error, validation_error, file_validation_error, Result, ok, err, ◌>>=◌,
}
use eu_ai_act_compliance.Calendar.{Date}
use eu_ai_act_compliance.Schemas.Facts.{ExtractedFacts}
use eu_ai_act_compliance.Schemas.Classification.{ClassificationResult}
use eu_ai_act_compliance.Evidence.FileIngestion.{Bytes, Parsers, extract_evidence_text}
use eu_ai_act_compliance.Observability.Instrumentation.{LlmCallRecord}
use eu_ai_act_compliance.Observability.Serialization.{llm_call_record_from_dict}
use eu_ai_act_compliance.Observability.AssessmentLog.{
  Codec, facts_validate_json, classification_validate_json, list_from_json,
}

pub data FormValue : Type 0 where
  entry : String → FormValue
  upload_file : (filename : Option String) → (content : Bytes) → FormValue

abbrev pub Form : Type 0
Form = List (String × FormValue)

-- The last value of a key, which is the one that `form[key]` and `form.get(key)` give.
last_value : String → Form → Option FormValue
last_value key [] = none
last_value key ((k, value) ∷ rest) = elim (last_value key rest) [
  | some later ↦ some later
  | none ↦ if str_eq k key then some value else none
]

-- `form[key]` for a reader that turns down what is no text with the exception `refusal`
text_item : (refusal : Exception) (key : String) → Form → Result String
unfolding last_value
text_item refusal key form = elim (last_value key form) [
  | none ↦ err key_error
  | some (entry s) ↦ ok s
  | some (upload_file filename content) ↦ err refusal
]

-- `str(form.get(key, ""))`; `upload_str` is the text of an uploaded file as an object.
text_or_empty : (upload_str key : String) → Form → String
unfolding last_value
text_or_empty upload_str key form = elim (last_value key form) [
  | none ↦ ""
  | some (entry s) ↦ s
  | some (upload_file filename content) ↦ upload_str
]

-- The name under which the assessment is filed, empty for none.
unfoldable pub ai_system_name_of : (upload_str : String) → Form → String
unfolding text_or_empty
ai_system_name_of upload_str form = strip (text_or_empty upload_str "ai_system_name" form)

pub record Fields : Type 0 where
  pub facts : ExtractedFacts
  pub classification : ClassificationResult
  pub as_of : Date
  pub classification_llm_calls : List LlmCallRecord

no_json : Exception
no_json = validation_error "JSON input should be string, bytes or bytearray"

unfoldable pub fields_of :
    Codec → (date_fromisoformat : String → Result Date) → Form → Result Fields
unfolding text_item no_json
fields_of codec date_fromisoformat form = do
  facts_json ← text_item no_json "facts_json" form
  facts ← facts_validate_json codec facts_json
  classification_json ← text_item no_json "classification_json" form
  classification ← classification_validate_json codec classification_json
  date_text ← text_item (type_error "str") "as_of" form
  as_of ← date_fromisoformat date_text
  calls_json ← text_item (type_error "str") "classification_llm_calls_json" form
  calls ← list_from_json codec (llm_call_record_from_dict codec.iso) calls_json
  ok (record {
    facts = facts;
    classification = classification;
    as_of = as_of;
    classification_llm_calls = calls;
  })

-- What follows a prefix: `key.startswith(prefix)` and `key.removeprefix(prefix)`.
unfoldable pub after_prefix : (prefix key : String) → Option String
after_prefix String.[] key = some key
after_prefix (String.◌∷◌ p prefix) String.[] = none
after_prefix (String.◌∷◌ p prefix) (String.◌∷◌ c key) =
    if code p == code c then after_prefix prefix key else none

abbrev pub evidence_field_prefix : String
evidence_field_prefix = "evidence__"

abbrev pub evidence_file_field_prefix : String
evidence_file_field_prefix = "evidence_file__"

-- A dictionary of texts, the newest entry first.
abbrev pub Texts : Type 0
Texts = List (String × String)

paste : Option String → FormValue → Texts → Texts
paste (some requirement_key) (entry value) evidence_by_key =
    if is_nonempty value then (requirement_key, value) ∷ evidence_by_key else evidence_by_key
paste key value evidence_by_key = evidence_by_key

-- The comprehension over the pasted texts.
unfoldable pub pasted_texts : Form → Texts → Texts
unfolding paste after_prefix
pasted_texts [] evidence_by_key = evidence_by_key
pasted_texts ((key, value) ∷ rest) evidence_by_key =
    pasted_texts rest (paste (after_prefix evidence_field_prefix key) value evidence_by_key)

-- The outcome of an extraction: a text that replaces the others of its key, or a note of the refusal.
unfoldable pub extracted :
    (requirement_key filename : String)
    → Result String
    → Texts × List String
    → Result (Texts × List String)
extracted requirement_key filename (ok text) (evidence_by_key, file_errors) =
    ok ((requirement_key, text) ∷ evidence_by_key, file_errors)
extracted requirement_key filename (err (file_validation_error message))
      (evidence_by_key, file_errors) =
    ok (
      evidence_by_key,
      file_errors ++ ((requirement_key +s " (" +s filename +s "): " +s message) ∷ []),
    )
extracted requirement_key filename (err e) state = err e

module _ (parsers : Parsers) where
  upload : Option String → FormValue → Texts × List String → Result (Texts × List String)
  unfolding extracted
  upload (some requirement_key) (upload_file (some filename) content) state =
      if is_nonempty filename
      then extracted requirement_key filename (extract_evidence_text parsers filename content) state
      else ok state
  upload key value state = ok state

  -- The loop over the uploaded files.
  unfoldable pub uploaded_texts : Form → Texts × List String → Result (Texts × List String)
  unfolding upload after_prefix
  uploaded_texts [] state = ok state
  uploaded_texts ((key, value) ∷ rest) state = do
    next ← upload (after_prefix evidence_file_field_prefix key) value state
    uploaded_texts rest next
