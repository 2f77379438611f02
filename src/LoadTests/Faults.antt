-- ===== src/LoadTests/Faults.antt =====
-- loadtests/fault_injection.py. `fails n` is the outcome of the n-th `random.random() < rate`.
use bedrock_gateway_platform.Base.{
  ℕ, ◌+◌, ◌≤◌, ◌≡◌, refl, ◌∙◌, String, Bool, true, Option, none, some, [], ◌∷◌, Result, ok, raise,
  string_eq, if◌then◌else◌, arith,
}
use bedrock_gateway_platform.Dict
use bedrock_gateway_platform.Dict.{Dict}
use bedrock_gateway_platform.Inference.{BedrockInvocationError, ConverseResult}
use bedrock_gateway_platform.Guardrails.Models
use bedrock_gateway_platform.Guardrails.Models.{GuardrailDecision, GuardrailCheckError}

pub record ThrottlingFaultConverseClient : Type 0 where
  pub response_text : String
  pub total_calls : ℕ
  pub throttled_calls : ℕ
  pub calls_by_model : Dict String ℕ

abbrev pub or_zero : Option ℕ → ℕ
or_zero none = 0
or_zero (some n) = n

abbrev pub throttled : BedrockInvocationError
throttled = record { message = "throttled"; code = "ThrottlingException"; retryable = true }

abbrev pub answered : String → ConverseResult
answered response_text = record {
  text = response_text;
  input_tokens = 5;
  output_tokens = 5;
  stop_reason = some "end_turn";
  latency_ms = 100;
  retry_count = 0;
}

-- The critical section that counts the call.
unfoldable pub count_call :
    Bool → String → ThrottlingFaultConverseClient → ThrottlingFaultConverseClient
count_call throttle model_id c = record c {
  total_calls = c.total_calls + 1;
  throttled_calls = if throttle then c.throttled_calls + 1 else c.throttled_calls;
  calls_by_model =
      Dict.put model_id (or_zero (Dict.get model_id c.calls_by_model) + 1) c.calls_by_model;
}

module _ (fails : ℕ → Bool) where
  unfoldable pub converse :
      String
      → ThrottlingFaultConverseClient
      → Result BedrockInvocationError ConverseResult × ThrottlingFaultConverseClient
  converse model_id c =
      let throttle = fails c.total_calls in
      (
        if throttle then raise throttled else ok (answered c.response_text),
        count_call throttle model_id c,
      )

abbrev pub allowed : GuardrailDecision
allowed = record { action = Models.allow; category = none; reason = none }

-- `AlwaysAllowGuardrailClient` has no state, and `check_output` of both clients allows.
pub record FlakyGuardrailClient : Type 0 where
  pub input_checks : ℕ
  pub failures : ℕ

unfoldable pub check_input :
    (ℕ → Bool)
    → FlakyGuardrailClient
    → Result GuardrailCheckError GuardrailDecision × FlakyGuardrailClient
check_input fails c =
    let fail = fails c.input_checks in
    (
      if fail
          then raise (record { message = "simulated guardrail backend unavailable" })
          else ok allowed,
      record {
        input_checks = c.input_checks + 1;
        failures = if fail then c.failures + 1 else c.failures;
      },
    )

abbrev pub sum : Dict String ℕ → ℕ
sum [] = 0
sum ((k, n) ∷ d) = n + sum d

sum-count :
    (k : String) (d : Dict String ℕ) → sum (Dict.put k (or_zero (Dict.get k d) + 1) d) ≡ sum d + 1
unfolding Dict.put Dict.get
sum-count k [] = refl
sum-count k ((j, n) ∷ d) = ground (arith, sum-count k d)

-- The evidence that the scenarios read: the counts by model add up to all calls, of which the
-- throttled ones are a part.
pub record IsCounted (c : ThrottlingFaultConverseClient) : Type 0 where
  pub by_model : sum c.calls_by_model ≡ c.total_calls
  pub some_throttled : c.throttled_calls ≤ c.total_calls

-- Every call keeps the counts right.
pub converse-IsCounted :
    (fails : ℕ → Bool) (model_id : String) (c : ThrottlingFaultConverseClient)
    → IsCounted c
    → IsCounted (converse fails model_id c).1
unfolding converse count_call
converse-IsCounted fails model_id c h = record {
  by_model = sum-count model_id c.calls_by_model ∙ rw h.by_model refl;
  some_throttled = ground (arith, h.some_throttled);
}
