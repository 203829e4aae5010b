-- ===== src/Observability/Serialization.antt =====
-- src/observability/serialization.py: the plain records as dictionaries and back. What `isoformat`
-- prints of an instant is a parameter. The source passes a value of another type on unchecked; the
-- model turns it down.
pub mod RoundTrip
use eu_ai_act_compliance.Prelude.{
  ℕ, String, Bool, List, [], ◌∷◌, Option, none, some, str_eq, if◌then◌else◌, ◌≡◌,
}
use eu_ai_act_compliance.Result.{key_error, type_error, value_error, Result, ok, err, ◌>>=◌}
use eu_ai_act_compliance.Calendar.{DateTime}
use eu_ai_act_compliance.Schemas.Enums.Category
use eu_ai_act_compliance.Schemas.Enums.EvidenceStatus
use eu_ai_act_compliance.Schemas.Enums.Lookup.{by_value}
use eu_ai_act_compliance.Obligations.{Obligation}
use eu_ai_act_compliance.Gaps.{Gap}
use eu_ai_act_compliance.Review.{
  ReviewTrigger, ReviewFlag, trigger_value, insufficient, low_confidence,
  high_impact_prohibited_practice, high_impact_high_risk, evidence_gap, contradiction_detected,
}
use eu_ai_act_compliance.Observability.Instrumentation.{LlmCallRecord}

-- The values of these dictionaries, in JSON.
pub data Value : Type 0 where
  text : String → Value
  number : ℕ → Value
  boolean : Bool → Value
  null : Value

abbrev pub Dict : Type 0
Dict = List (String × Value)

-- `d[key]`
unfoldable pub item : String → Dict → Result Value
item key [] = err key_error
item key ((k, v) ∷ rest) = if str_eq k key then ok v else item key rest

-- `d.get(key)`
unfoldable pub get : String → Dict → Value
get key [] = null
get key ((k, v) ∷ rest) = if str_eq k key then v else get key rest

as_text : Value → Result String
as_text (text s) = ok s
as_text v = err (type_error "str")

as_number : Value → Result ℕ
as_number (number n) = ok n
as_number v = err (type_error "int")

as_boolean : Value → Result Bool
as_boolean (boolean b) = ok b
as_boolean v = err (type_error "bool")

as_optional_text : Value → Result (Option String)
as_optional_text null = ok none
as_optional_text (text s) = ok (some s)
as_optional_text v = err (type_error "str")

optional_text : Option String → Value
optional_text none = null
optional_text (some s) = text s

text_at : String → Dict → Result String
unfolding item as_text
text_at key d = do v ← item key d; as_text v

number_at : String → Dict → Result ℕ
unfolding item as_number
number_at key d = do v ← item key d; as_number v

boolean_at : String → Dict → Result Bool
unfolding item as_boolean
boolean_at key d = do v ← item key d; as_boolean v

unfoldable pub obligation_to_dict : Obligation → Dict
obligation_to_dict o =
    ("requirement_key", text o.requirement_key)
    ∷ ("citation", text o.citation)
    ∷ ("summary", text o.summary)
    ∷ ("triggered_by", text (Category.value o.triggered_by))
    ∷ []

unfoldable pub obligation_from_dict : Dict → Result Obligation
unfolding text_at
obligation_from_dict d = do
  requirement_key ← text_at "requirement_key" d
  citation ← text_at "citation" d
  summary ← text_at "summary" d
  value ← text_at "triggered_by" d
  triggered_by ← Category.from_value value
  ok (record {
    requirement_key = requirement_key;
    citation = citation;
    summary = summary;
    triggered_by = triggered_by;
  })

unfoldable pub gap_to_dict : Gap → Dict
gap_to_dict g =
    ("requirement_key", text g.requirement_key)
    ∷ ("citation", text g.citation)
    ∷ ("obligation_summary", text g.obligation_summary)
    ∷ ("evidence_status", text (EvidenceStatus.value g.evidence_status))
    ∷ ("rationale", text g.rationale)
    ∷ []

unfoldable pub gap_from_dict : Dict → Result Gap
unfolding text_at
gap_from_dict d = do
  requirement_key ← text_at "requirement_key" d
  citation ← text_at "citation" d
  obligation_summary ← text_at "obligation_summary" d
  value ← text_at "evidence_status" d
  evidence_status ← EvidenceStatus.from_value value
  rationale ← text_at "rationale" d
  ok (record {
    requirement_key = requirement_key;
    citation = citation;
    obligation_summary = obligation_summary;
    evidence_status = evidence_status;
    rationale = rationale;
  })

-- the members of `ReviewTrigger`, in the order of their definition
abbrev pub triggers : List ReviewTrigger
triggers =
    insufficient ∷ low_confidence ∷ high_impact_prohibited_practice ∷ high_impact_high_risk
    ∷ evidence_gap ∷ contradiction_detected ∷ []

-- `ReviewTrigger(value)`
unfoldable pub trigger_from_value : String → Result ReviewTrigger
unfolding by_value trigger_value
trigger_from_value value = by_value trigger_value triggers value

unfoldable pub review_flag_to_dict : ReviewFlag → Dict
review_flag_to_dict f = ("trigger", text (trigger_value f.trigger)) ∷ ("detail", text f.detail) ∷ []

unfoldable pub review_flag_from_dict : Dict → Result ReviewFlag
unfolding text_at trigger_from_value
review_flag_from_dict d = do
  value ← text_at "trigger" d
  trigger ← trigger_from_value value
  detail ← text_at "detail" d
  ok (record { trigger = trigger; detail = detail })

-- `datetime.isoformat()` and `datetime.fromisoformat(text)`
pub record IsoFormat : Type 0 where
  pub isoformat : DateTime → String
  pub fromisoformat : String → Result DateTime
  pub fromisoformat-isoformat : (t : DateTime) → fromisoformat (isoformat t) ≡ ok t

module _ (iso : IsoFormat) where
  unfoldable pub llm_call_record_to_dict : LlmCallRecord → Dict
  unfolding optional_text
  llm_call_record_to_dict c =
      ("timestamp", text (iso.isoformat c.timestamp))
      ∷ ("provider", text c.provider)
      ∷ ("model", text c.model)
      ∷ ("prompt_version", text c.prompt_version)
      ∷ ("response_model_name", text c.response_model_name)
      ∷ ("succeeded", boolean c.succeeded)
      ∷ ("input_tokens", number c.input_tokens)
      ∷ ("output_tokens", number c.output_tokens)
      ∷ ("retried", boolean c.retried)
      ∷ ("latency_ms", number c.latency_ms)
      ∷ ("error", optional_text c.error)
      ∷ []

  unfoldable pub llm_call_record_from_dict : Dict → Result LlmCallRecord
  unfolding text_at number_at boolean_at as_optional_text get
  llm_call_record_from_dict d = do
    moment ← text_at "timestamp" d
    timestamp ← iso.fromisoformat moment
    provider ← text_at "provider" d
    model ← text_at "model" d
    prompt_version ← text_at "prompt_version" d
    response_model_name ← text_at "response_model_name" d
    succeeded ← boolean_at "succeeded" d
    input_tokens ← number_at "input_tokens" d
    output_tokens ← number_at "output_tokens" d
    retried ← boolean_at "retried" d
    latency_ms ← number_at "latency_ms" d
    error ← as_optional_text (get "error" d)
    ok (record {
      timestamp = timestamp;
      provider = provider;
      model = model;
      prompt_version = prompt_version;
      response_model_name = response_model_name;
      succeeded = succeeded;
      input_tokens = input_tokens;
      output_tokens = output_tokens;
      retried = retried;
      latency_ms = latency_ms;
      error = error;
    })
