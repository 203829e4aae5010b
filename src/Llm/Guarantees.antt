-- ===== src/Llm/Guarantees.antt =====
-- What `generate_structured` guarantees to the stages that call it.
use eu_ai_act_compliance.Prelude.{ℕ, ◌+◌, ◌/◌, String, true, List, ◌∷◌, ◌+s◌, ◌≡◌, refl, arith, ◌≤◌}
use Prim.Native.String.{count}
use eu_ai_act_compliance.Result.{validation_error, structured_output_error, Result, ok, err}
use eu_ai_act_compliance.Exec.{Exec, continue, bind-eq-ok}
use eu_ai_act_compliance.Llm.{
  TokenUsage, LlmCallMetadata, RawCompletionProvider, ResponseModel, LlmClient, retry_instruction,
  metadata, second_attempt, first_attempt, generate_structured, client,
}
use eu_ai_act_compliance.Llm.Fake.{FakeState, fake, programmed}

-- The law that the classification and evidence stages rely on: what a client returns is the
-- validated value of some text.
pub record IsSound {S : Type 0} (c : LlmClient S) : Type 1 where
  pub validated :
      (T : Type 0) (m : ResponseModel T) (system_prompt user_prompt prompt_version : String) (s : S)
      (value : T) (meta : LlmCallMetadata)
      → (c.generate_structured T m system_prompt user_prompt prompt_version s).0 ≡ ok (value, meta)
      → (raw : String) × (m.model_validate_json raw ≡ ok value)

module _ {S : Type 0} (provider : RawCompletionProvider S) (model : String) (T : Type 0)
    (m : ResponseModel T) where
  second_attempt-validated :
      (version : String) (first second : TokenUsage) (raw : String) (r : Result T)
      → m.model_validate_json raw ≡ r
      → (s : S) (value : T) (meta : LlmCallMetadata)
      → (second_attempt provider model T m version first second raw r s).0 ≡ ok (value, meta)
      → (text : String) × (m.model_validate_json text ≡ ok value)
  unfolding second_attempt
  second_attempt-validated version first second raw (ok v) e s value meta h = (raw, cc)
  second_attempt-validated version first second raw (err (validation_error x)) e s value meta h = cc
  second_attempt-validated version first second raw (err x) e s value meta h = cc

  first_attempt-validated :
      (system user version : String) (usage : TokenUsage) (raw : String) (r : Result T)
      → m.model_validate_json raw ≡ r
      → (s : S) (value : T) (meta : LlmCallMetadata)
      → (first_attempt provider model T m system user version usage r s).0 ≡ ok (value, meta)
      → (text : String) × (m.model_validate_json text ≡ ok value)
  unfolding first_attempt
  first_attempt-validated system user version usage raw (ok v) e s value meta h = (raw, cc)
  first_attempt-validated system user version usage raw (err (validation_error x)) e s value meta
        h =
      let ((text, more), _, k) =
        bind-eq-ok (provider.complete system (user +s retry_instruction x) model) _ s h in
      second_attempt-validated version usage more text _ refl _ value meta k
  first_attempt-validated system user version usage raw (err x) e s value meta h = cc

  generate_structured-validated :
      (system user version : String) (s : S) (value : T) (meta : LlmCallMetadata)
      → (generate_structured provider model T m system user version s).0 ≡ ok (value, meta)
      → (text : String) × (m.model_validate_json text ≡ ok value)
  unfolding generate_structured
  generate_structured-validated system user version s value meta h =
      let ((raw, usage), e, k) = bind-eq-ok (provider.complete system user model) _ s h in
      first_attempt-validated system user version usage raw _ refl _ value meta k

-- A client over any backend returns only values that the response model accepted.
pub client-IsSound :
    {S : Type 0} (provider : RawCompletionProvider S) (model : String)
    → IsSound (client provider model)
unfolding client
client-IsSound provider model = record {
  validated = λ T m. generate_structured-validated provider model T m;
}

-- A backend that counts how often it is asked, and otherwise does what another does.
abbrev pub counting : {S : Type 0} → RawCompletionProvider S → RawCompletionProvider (S × ℕ)
counting provider = record {
  provider_name = provider.provider_name;
  complete = λ system user model (s, asked).
      let (r, s') = provider.complete system user model s in (r, (s', asked + 1));
}

module _ {S : Type 0} (provider : RawCompletionProvider S) (model : String) (T : Type 0)
    (m : ResponseModel T) (system user version : String) where
  -- The outcome and the state of the backend are those without counting, and the count lies between two
  -- numbers.
  abbrev Counted :
      (low high : ℕ)
      → Result (T × LlmCallMetadata) × S
      → Result (T × LlmCallMetadata) × (S × ℕ)
      → Type 0
  Counted low high (r, s) (r', (s', asked)) = (r' ≡ r) × (s' ≡ s) × (low ≤ asked) × (asked ≤ high)

  -- Going on after a call of the backend, by the outcome of the call.
  continue-Counted :
      {A : Type 0} (low high : ℕ) (r : Result A) (f : A → Exec S (T × LlmCallMetadata))
      (f' : A → Exec (S × ℕ) (T × LlmCallMetadata)) (s : S) (n : ℕ)
      → low ≤ n
      → n ≤ high
      → ((a : A) → Counted low high (f a s) (f' a (s, n)))
      → Counted low high (continue r f s) (continue r f' (s, n))
  continue-Counted low high (ok a) f f' s n h k rest = rest a
  continue-Counted low high (err e) f f' s n h k rest = (refl, refl, h, k)

  Counted-widened :
      (low high low' high' : ℕ) (x : Result (T × LlmCallMetadata) × S)
      (y : Result (T × LlmCallMetadata) × (S × ℕ))
      → low' ≤ low
      → high ≤ high'
      → Counted low high x y
      → Counted low' high' x y
  Counted-widened low high low' high' x y h k (same, state, l, u) =
      (same, state, omega arith, omega arith)

  second_attempt-Counted :
      (first second : TokenUsage) (raw : String) (r : Result T) (s : S) (n : ℕ)
      → Counted n n
          (second_attempt provider model T m version first second raw r s)
          (second_attempt (counting provider) model T m version first second raw r (s, n))
  unfolding second_attempt metadata
  second_attempt-Counted first second raw (ok v) s n = (refl, refl, omega arith, omega arith)
  second_attempt-Counted first second raw (err (validation_error e)) s n =
      (refl, refl, omega arith, omega arith)
  second_attempt-Counted first second raw (err e) s n = (refl, refl, omega arith, omega arith)

  first_attempt-Counted :
      (usage : TokenUsage) (r : Result T) (s : S) (n : ℕ)
      → Counted n
          (n + 1)
          (first_attempt provider model T m system user version usage r s)
          (first_attempt (counting provider) model T m system user version usage r (s, n))
  unfolding first_attempt metadata
  first_attempt-Counted usage (ok v) s n = (refl, refl, omega arith, omega arith)
  first_attempt-Counted usage (err (validation_error e)) s n =
      let (r, s') = provider.complete system (user +s retry_instruction e) model s in
      continue-Counted n (n + 1) r _ _ s' (n + 1) (omega arith) (omega arith) (λ (raw, more).
        let again = m.model_validate_json raw in
        Counted-widened (n + 1) (n + 1) n (n + 1) _ _ (omega arith) (omega arith)
          (second_attempt-Counted usage more raw again s' (n + 1)))
  first_attempt-Counted usage (err e) s n = (refl, refl, omega arith, omega arith)

  -- Over any backend, whatever it answers or raises, one call of `generate_structured` asks it once or
  -- twice; that is counted by a backend that does the same otherwise, so that the outcome and the state that
  -- the call ends in are the same.
  pub calls_bound :
      (s : S) (n : ℕ)
      → ((generate_structured (counting provider) model T m system user version (s, n)).0
          ≡ (generate_structured provider model T m system user version s).0)
        × ((generate_structured (counting provider) model T m system user version (s, n)).1.0
            ≡ (generate_structured provider model T m system user version s).1)
        × (n + 1
            ≤ (generate_structured (counting provider) model T m system user version (s, n)).1.1)
        × ((generate_structured (counting provider) model T m system user version (s, n)).1.1
            ≤ n + 2)
  unfolding generate_structured
  calls_bound s n =
      let (r, s') = provider.complete system user model s in
      continue-Counted (n + 1) (n + 2) r _ _ s' (n + 1) (omega arith) (omega arith) (λ (raw, usage).
        Counted-widened (n + 1) (n + 1 + 1) (n + 1) (n + 2) _ _ (omega arith) (omega arith)
          (first_attempt-Counted usage (m.model_validate_json raw) s' (n + 1)))

module _ (model : String) (T : Type 0) (m : ResponseModel T) (system user version : String) where
  abbrev run : FakeState → Result (T × LlmCallMetadata) × FakeState
  run = generate_structured fake model T m system user version

  -- When the first text is rejected and the second accepted, the result is the second value, it is
  -- marked as retried, and the tokens of both calls are counted.
  pub retry_succeeds :
      (r₁ r₂ : String) (rest : List String) (e : String) (value : T)
      → m.model_validate_json r₁ ≡ err (validation_error e)
      → m.model_validate_json r₂ ≡ ok value
      → (run (programmed (r₁ ∷ r₂ ∷ rest))).0
        ≡ ok (
          value,
          record {
            provider = "fake";
            model = model;
            prompt_version = version;
            input_tokens = count user / 4 + count (user +s retry_instruction e) / 4;
            output_tokens = count r₁ / 4 + count r₂ / 4;
            retried = true;
          },
        )
  unfolding generate_structured first_attempt second_attempt metadata fake
  retry_succeeds r₁ r₂ rest e value h k = ground arith

  -- When both texts are rejected, the call raises `StructuredOutputError` and both are used up.
  pub retry_fails :
      (r₁ r₂ : String) (rest : List String) (e₁ e₂ : String)
      → m.model_validate_json r₁ ≡ err (validation_error e₁)
      → m.model_validate_json r₂ ≡ err (validation_error e₂)
      → ((run (programmed (r₁ ∷ r₂ ∷ rest))).0 ≡ err (structured_output_error m.name r₂))
        × ((run (programmed (r₁ ∷ r₂ ∷ rest))).1.responses ≡ rest)
  unfolding generate_structured first_attempt second_attempt fake
  retry_fails r₁ r₂ rest e₁ e₂ h k = (ground arith, ground arith)
