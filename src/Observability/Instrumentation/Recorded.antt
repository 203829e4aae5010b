-- ===== src/Observability/Instrumentation/Recorded.antt =====
-- src/observability/instrumented_client.py: what the wrapper changes and what it records.
use mathlib.Core.List.{append-nil}
use eu_ai_act_compliance.Prelude.{ℕ, String, Bool, true, false, List, [], ◌∷◌, ◌++◌, ◌≡◌, refl}
use eu_ai_act_compliance.Result.{Exception, structured_output_error, Result, ok, err}
use eu_ai_act_compliance.Calendar.{DateTime}
use eu_ai_act_compliance.Llm.{LlmCallMetadata, ResponseModel, LlmClient}
use eu_ai_act_compliance.Llm.Guarantees.{IsSound}
use eu_ai_act_compliance.Observability.Instrumentation.{
  LlmCallRecord, entries_of, generate_recorded, instrumented,
}

abbrev pub is_rejection : Exception → Bool
is_rejection (structured_output_error m raw) = true
is_rejection e = false

-- What has been logged, by the outcome of a call.
pub data Logged {T : Type 0} (before after : List LlmCallRecord)
    : Result (T × LlmCallMetadata) → Type 0 where
  success :
      {value : T} {metadata : LlmCallMetadata} (entry : LlmCallRecord)
      → after ≡ before ++ (entry ∷ [])
      → entry.succeeded ≡ true
      → entry.input_tokens ≡ metadata.input_tokens
      → entry.output_tokens ≡ metadata.output_tokens
      → Logged before after (ok (value, metadata))
  rejection :
      {m raw : String} (entry : LlmCallRecord)
      → after ≡ before ++ (entry ∷ [])
      → entry.succeeded ≡ false
      → entry.input_tokens ≡ 0
      → entry.output_tokens ≡ 0
      → Logged before after (err (structured_output_error m raw))
  unlogged : {e : Exception} → after ≡ before → is_rejection e ≡ false → Logged before after (err e)

module _ {S : Type 0} (timestamp : S → DateTime) (latency : S → S → ℕ) (inner : LlmClient S) where
  -- The wrapped client returns only values that the response model accepted, if the inner one does.
  pub instrumented-IsSound : IsSound inner → IsSound (instrumented timestamp latency inner)
  unfolding instrumented generate_recorded
  instrumented-IsSound sound = record {
    validated = λ T m system user version (s, records) value meta h.
        sound.validated T m system user version s value meta h;
  }

  entries_of-Logged :
      {T : Type 0} (name version : String) (s s' : S) (records : List LlmCallRecord)
      (r : Result (T × LlmCallMetadata))
      → Logged records (records ++ entries_of timestamp latency inner name version s s' r) r
  unfolding entries_of
  entries_of-Logged name version s s' records (ok (value, metadata)) = success _ refl refl refl refl
  entries_of-Logged name version s s' records (err (structured_output_error m raw)) =
      rejection _ refl refl refl refl
  entries_of-Logged name version s s' records (err e) = unlogged (append-nil records) refl

  -- A call through the wrapper ends as the inner call does, in the same state of the world. A success
  -- is recorded with the tokens it took and a doubly rejected output as a failure with no tokens;
  -- after any other exception, nothing is recorded.
  pub instrumented-Logged :
      (T : Type 0) (m : ResponseModel T) (system user version : String) (s : S)
      (records : List LlmCallRecord)
      → let (r, (after, records')) =
          (instrumented timestamp latency inner).generate_structured T m system user version
            (s, records) in
        (r ≡ (inner.generate_structured T m system user version s).0)
        × (after ≡ (inner.generate_structured T m system user version s).1)
        × Logged records records' r
  unfolding instrumented generate_recorded
  instrumented-Logged T m system user version s records =
      (refl, refl, entries_of-Logged m.name version s _ records _)
