-- ===== src/Observability/Instrumentation.antt =====
-- src/observability/instrumented_client.py: a client that records the calls of another. The clocks are
-- read off the state of the world: `timestamp s` is the time in state s, and `latency s s'` what the
-- monotonic clock shows to have passed between s and s', in nanoseconds.
pub mod Recorded
use eu_ai_act_compliance.Prelude.{
  ℕ, String, Bool, true, false, List, [], ◌∷◌, ◌++◌, Option, none, some, ◌+s◌,
}
use eu_ai_act_compliance.Result.{structured_output_error, Result, ok, err}
use eu_ai_act_compliance.Exec.{Exec}
use eu_ai_act_compliance.Calendar.{DateTime}
use eu_ai_act_compliance.Llm.{LlmCallMetadata, ResponseModel, LlmClient}

pub record LlmCallRecord : Type 0 where
  pub timestamp : DateTime
  pub provider : String
  pub model : String
  pub prompt_version : String
  pub response_model_name : String
  pub succeeded : Bool
  pub input_tokens : ℕ
  pub output_tokens : ℕ
  pub retried : Bool
  pub latency_ms : ℕ
  pub error : Option String

module _ {S : Type 0} (timestamp : S → DateTime) (latency : S → S → ℕ) (inner : LlmClient S) where
  -- What is appended to `call_records`, by the outcome of the inner call. The text of a rejection is
  -- given without the validator's own message, which the exception of the model does not hold.
  unfoldable pub entries_of :
      {T : Type 0}
      → (response_model_name prompt_version : String) → (before after : S)
      → Result (T × LlmCallMetadata)
      → List LlmCallRecord
  entries_of name prompt_version before after (ok (result, metadata)) =
      record {
        timestamp = timestamp before;
        provider = metadata.provider;
        model = metadata.model;
        prompt_version = metadata.prompt_version;
        response_model_name = name;
        succeeded = true;
        input_tokens = metadata.input_tokens;
        output_tokens = metadata.output_tokens;
        retried = metadata.retried;
        latency_ms = latency before after;
        error = none;
      }
      ∷ []
  entries_of name prompt_version before after (err (structured_output_error response_model raw)) =
      record {
        timestamp = timestamp before;
        provider = inner.provider_name;
        model = inner.model;
        prompt_version = prompt_version;
        response_model_name = name;
        succeeded = false;
        input_tokens = 0;
        output_tokens = 0;
        retried = true;
        latency_ms = latency before after;
        error = some ("Model output failed to validate against " +s response_model);
      }
      ∷ []
  entries_of name prompt_version before after (err e) = []

  unfoldable pub generate_recorded :
      (T : Type 0)
      → ResponseModel T
      → (system_prompt user_prompt prompt_version : String)
      → Exec (S × List LlmCallRecord) (T × LlmCallMetadata)
  unfolding entries_of
  generate_recorded T response_model system_prompt user_prompt prompt_version (s, call_records) =
      let (r, after) =
        inner.generate_structured T response_model system_prompt user_prompt prompt_version s in
      (r, (after, call_records ++ entries_of response_model.name prompt_version s after r))

  -- `InstrumentedLLMClient(inner)`
  unfoldable pub instrumented : LlmClient (S × List LlmCallRecord)
  instrumented = record {
    provider_name = inner.provider_name;
    model = inner.model;
    generate_structured = generate_recorded;
  }
