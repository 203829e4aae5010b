-- ===== src/Llm/Fake.antt =====
-- `FakeCompletionProvider` of src/llm/fake_client.py: programmed responses, in order, and the calls
-- made so far.
use Prim.Native.String.{count}
use eu_ai_act_compliance.Prelude.{◌/◌, String, List, [], ◌∷◌, ◌++◌}
use eu_ai_act_compliance.Result.{assertion_error, ok, err}
use eu_ai_act_compliance.Exec.{Exec}
use eu_ai_act_compliance.Llm.{TokenUsage, RawCompletionProvider}

pub record Call : Type 0 where
  pub system_prompt : String
  pub user_prompt : String
  pub model : String

pub record FakeState : Type 0 where
  pub responses : List String
  pub calls : List Call

-- `self._responses.popleft()` behind the test that there is one.
respond : String → List Call → List String → Exec FakeState (String × TokenUsage)
respond user_prompt calls [] s = (
  err (assertion_error "FakeCompletionProvider ran out of programmed responses"),
  record { responses = []; calls = calls },
)
respond user_prompt calls (raw_text ∷ rest) s = (
  ok (
    raw_text,
    record { input_tokens = count user_prompt / 4; output_tokens = count raw_text / 4 },
  ),
  record { responses = rest; calls = calls },
)

unfoldable pub complete :
    (system_prompt user_prompt model : String) → Exec FakeState (String × TokenUsage)
unfolding respond
complete system_prompt user_prompt model s =
    let call : Call = record {
      system_prompt = system_prompt;
      user_prompt = user_prompt;
      model = model;
    } in
    respond user_prompt (s.calls ++ call ∷ []) s.responses s

unfoldable pub fake : RawCompletionProvider FakeState
unfolding complete
fake = record { provider_name = "fake"; complete = complete }

abbrev pub programmed : List String → FakeState
programmed responses = record { responses = responses; calls = [] }
