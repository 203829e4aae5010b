-- ===== src/Llm.antt =====
-- src/llm/interface.py and fake_client.py: structured output from a model's raw text, validated,
-- with one retry.
pub mod Guarantees
pub mod Fake
use eu_ai_act_compliance.Prelude.{ℕ, ◌+◌, ◌/◌, String, Bool, true, false, List, [], ◌∷◌, ◌++◌, ◌+s◌}
use eu_ai_act_compliance.Result.{
  Exception, validation_error, structured_output_error, Result, ok, err,
}
use eu_ai_act_compliance.Exec.{Exec, pure, raise, lift, continue, ◌>>=◌, ◌>>◌}

pub record TokenUsage : Type 0 where
  pub input_tokens : ℕ
  pub output_tokens : ℕ

pub record LlmCallMetadata : Type 0 where
  pub provider : String
  pub model : String
  pub prompt_version : String
  pub input_tokens : ℕ
  pub output_tokens : ℕ
  pub retried : Bool

-- `RawCompletionProvider`: a backend turns prompts into raw text and usage, reading and writing a
-- state of its own.
pub record RawCompletionProvider (S : Type 0) : Type 0 where
  pub provider_name : String
  pub complete : (system_prompt user_prompt model : String) → Exec S (String × TokenUsage)

-- A Pydantic model class. `model_validate_json` parses the text and runs the class's validators.
pub record ResponseModel (T : Type 0) : Type 0 where
  pub name : String
  pub model_validate_json : String → Result T

-- `str(exc)` of a `ValidationError` is its message.
abbrev pub retry_instruction : String → String
retry_instruction error =
    "\n\nYour previous response failed schema validation with this error:\n" +s error
    +s "\nReturn ONLY valid JSON matching the requested schema, with no surrounding prose."

-- What code that uses a client can call.
pub record LlmClient (S : Type 0) : Type 1 where
  pub provider_name : String
  pub model : String
  pub generate_structured :
      (T : Type 0)
      → ResponseModel T
      → (system_prompt user_prompt prompt_version : String) → Exec S (T × LlmCallMetadata)

module _ {S : Type 0} (provider : RawCompletionProvider S) (model : String) where
  metadata : String → TokenUsage → Bool → LlmCallMetadata
  metadata prompt_version usage retried = record {
    provider = provider.provider_name;
    model = model;
    prompt_version = prompt_version;
    input_tokens = usage.input_tokens;
    output_tokens = usage.output_tokens;
    retried = retried;
  }

  -- The second attempt, after a `ValidationError`.
  second_attempt :
      (T : Type 0)
      → ResponseModel T
      → (prompt_version : String) → (first second : TokenUsage) → (raw_text : String) → Result T
      → Exec S (T × LlmCallMetadata)
  unfolding metadata
  second_attempt T response_model prompt_version first second raw_text (ok validated) = pure (
    validated,
    metadata prompt_version
        (record {
          input_tokens = first.input_tokens + second.input_tokens;
          output_tokens = first.output_tokens + second.output_tokens;
        })
        true,
  )
  second_attempt T response_model prompt_version first second raw_text
        (err (validation_error error)) =
      raise (structured_output_error response_model.name raw_text)
  second_attempt T response_model prompt_version first second raw_text (err e) = raise e

  first_attempt :
      (T : Type 0)
      → ResponseModel T
      → (system_prompt user_prompt prompt_version : String) → TokenUsage
      → Result T
      → Exec S (T × LlmCallMetadata)
  unfolding metadata second_attempt
  first_attempt T response_model system_prompt user_prompt prompt_version usage (ok validated) =
      pure (validated, metadata prompt_version usage false)
  first_attempt T response_model system_prompt user_prompt prompt_version usage
        (err (validation_error error)) =
      do
        (raw_text, retry_usage) ←
            provider.complete system_prompt (user_prompt +s retry_instruction error) model
        second_attempt T response_model prompt_version usage retry_usage raw_text
            (response_model.model_validate_json raw_text)
  first_attempt T response_model system_prompt user_prompt prompt_version usage (err e) = raise e

  -- `LLMClient.generate_structured`
  pub generate_structured :
      (T : Type 0)
      → ResponseModel T
      → (system_prompt user_prompt prompt_version : String) → Exec S (T × LlmCallMetadata)
  unfolding first_attempt
  generate_structured T response_model system_prompt user_prompt prompt_version = do
    (raw_text, usage) ← provider.complete system_prompt user_prompt model
    first_attempt T response_model system_prompt user_prompt prompt_version usage
        (response_model.model_validate_json raw_text)

  -- `LLMClient(provider, model=model)`
  unfoldable pub client : LlmClient S
  unfolding generate_structured
  client = record {
    provider_name = provider.provider_name;
    model = model;
    generate_structured = generate_structured;
  }
