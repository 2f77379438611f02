-- ===== src/Examples/Routing.antt =====
-- The circuit breaker and the router with a concrete model service.
use bedrock_gateway_platform.Base.{
  ◌+◌, ◌≡◌, ◌≢◌, ◌↔◌, ◌<◌, ◌⊎◌, inr, refl, ℕ, suc, String, true, false, Option, none, some, [], ◌∷◌,
  Result, ok, raise, arith, string_eq, contains,
}
use bedrock_gateway_platform.Base.{◌==◌, if◌then◌else◌}
use bedrock_gateway_platform.Dict
use bedrock_gateway_platform.Dict.{Dict}
use bedrock_gateway_platform.Inference.{
  BedrockInvocationError, ConverseArguments, ConverseClient, ConverseResult,
}
use bedrock_gateway_platform.Routing.Breaker.{
  closed, open_, CircuitBreaker, breaker_of, write, allow, allow_one, record_success,
  record_failure, fail_one,
}
use bedrock_gateway_platform.Routing.Breaker.Steps.{
  allow_at, success, failure_at, apply, proceeds, answer, Transition, apply-Transition,
  apply_isolated,
}
use bedrock_gateway_platform.Routing.Breaker.Runs
use bedrock_gateway_platform.Routing.Breaker.Runs.{History, streak, closed_iff_streak}
use bedrock_gateway_platform.Routing.Breaker.Storms.{open_rejects}
use bedrock_gateway_platform.Routing.Breaker.Trials.{answers, trial_unlimited}
use bedrock_gateway_platform.Routing.Router.{
  RouteSet, RoutedResult, all_routes_unavailable, fallbacks_for, without_primary, candidates,
  LoopClock, World, attempt, try_candidates, converse,
}
use bedrock_gateway_platform.Routing.Router.Outcomes.{routed_certified}
use bedrock_gateway_platform.Routing.Router.Unavailable.{
  IsReset, served_closes, unavailable_no_call,
}

abbrev opus : String
opus = "opus"

abbrev haiku : String
haiku = "haiku"

abbrev breakers : CircuitBreaker
breakers = record { failure_threshold = 2; reset_timeout = 10; breakers = [] }

abbrev once_failed : CircuitBreaker
once_failed = record breakers {
  breakers = (opus, record { state = closed; consecutive_failures = 1; opened_at = 0 }) ∷ [];
}

abbrev opened : CircuitBreaker
opened = record breakers {
  breakers =
      (opus, record { state = open_; consecutive_failures = 2; opened_at = 4 })
      ∷ (haiku, record { state = open_; consecutive_failures = 2; opened_at = 5 })
      ∷ [];
}

apply-Transition_example :
    Transition 2 10 (breaker_of opened opus) (allow_at 9) (proceeds false) (breaker_of opened opus)
    ↔ ((proceeds false ≡ answer (allow_at 9) opened opus)
        × (breaker_of opened opus ≡ breaker_of (apply (allow_at 9) opened opus) opus))
apply-Transition_example =
    apply-Transition (allow_at 9) opened opus (proceeds false) (breaker_of opened opus)

-- The opened breaker rejects.
early_call :
    (answer (allow_at 9) opened opus ≡ proceeds false)
    × (breaker_of (apply (allow_at 9) opened opus) opus ≡ breaker_of opened opus)
unfolding breaker_of answer apply allow allow_one write Dict.get Dict.put
early_call = (refl, refl)

-- The second failure trips the breaker.
second_failure :
    breaker_of (apply (failure_at 4) once_failed opus) opus
    ≡ record { state = open_; consecutive_failures = 2; opened_at = 4 }
unfolding breaker_of apply record_failure fail_one write Dict.get Dict.put
second_failure = refl

apply_isolated_example :
    breaker_of (apply (failure_at 4) once_failed opus) haiku ≡ breaker_of once_failed haiku
apply_isolated_example = apply_isolated (failure_at 4) once_failed opus haiku refl

abbrev calls : History
calls =
    (opus, failure_at 1)
    ∷ (haiku, failure_at 2)
    ∷ (opus, allow_at 3)
    ∷ (opus, success)
    ∷ (haiku, failure_at 4)
    ∷ []

closed_iff_streak_example :
    ((breaker_of (Runs.run breakers calls) haiku).state ≡ closed) ↔ (streak haiku 0 calls < 2)
closed_iff_streak_example = closed_iff_streak calls 2 10 haiku (omega arith)

abbrev storm : History
storm = (opus, allow_at 6) ∷ (haiku, success) ∷ (opus, failure_at 9) ∷ []

open_rejects_example :
    (allow 13 (Runs.run (record_failure 4 once_failed opus) storm) opus).0 ≡ false
unfolding breaker_of Dict.get
open_rejects_example =
    open_rejects once_failed opus 4 13 storm (inr (omega arith))
      (λ h. omega arith, (λ h. cc, (λ h. omega arith, tt))) (omega arith)

trial_unlimited_example : answers (14 ∷ 14 ∷ 15 ∷ []) opened opus ≡ true ∷ true ∷ true ∷ []
unfolding breaker_of Dict.get
trial_unlimited_example = trial_unlimited 14 (14 ∷ 15 ∷ []) opened opus refl (omega arith)

-- A service that counts its calls and serves haiku only.
abbrev answer_of : String → Result BedrockInvocationError ConverseResult
answer_of m =
    if m == haiku
    then ok (record {
      text = "hello";
      input_tokens = 3;
      output_tokens = 2;
      stop_reason = some "end_turn";
      latency_ms = 100;
      retry_count = 0;
    })
    else raise (record { message = "busy"; code = "ThrottlingException"; retryable = true })

abbrev service : ConverseClient
service = record {
  State = ℕ;
  converse = λ n m arguments. (answer_of m, suc n);
  converse_stream = λ n m arguments. (record { yielded = []; failure = none }, suc n);
}

abbrev clock : LoopClock
clock = record { allow_at = λ n. 6 + n; fail_at = λ n. 7 + n }

abbrev arguments : ConverseArguments
arguments = record {
  messages = record { role = "user"; text = "hi" } ∷ [];
  max_tokens = 64;
  temperature = 700000;
}

abbrev set_name : Option String
set_name = some "default"

abbrev route_sets : Dict String RouteSet
route_sets =
    ("default", record { name = "default"; primary = opus; fallbacks = opus ∷ haiku ∷ [] }) ∷ []

abbrev at_rest : World service clock arguments
at_rest = record { breaker = once_failed; client_state = 0 }

abbrev by_haiku : RoutedResult
by_haiku = record {
  result = record {
    text = "hello";
    input_tokens = 3;
    output_tokens = 2;
    stop_reason = some "end_turn";
    latency_ms = 100;
    retry_count = 0;
  };
  model_id = haiku;
  fallback = true;
}

served_by_haiku :
    (converse service clock arguments route_sets opus set_name at_rest).0 ≡ ok by_haiku
unfolding converse candidates fallbacks_for without_primary try_candidates attempt allow allow_one
    breaker_of write record_failure fail_one record_success Dict.get Dict.put
served_by_haiku = refl

routed_certified_example :
    ((haiku ≡ opus) × (true ≡ false))
    ⊎ ((contains haiku (fallbacks_for route_sets set_name) ≡ true) × (haiku ≢ opus) × (true ≡ true))
routed_certified_example =
    routed_certified service clock arguments route_sets opus set_name at_rest by_haiku
      served_by_haiku

served_closes_example :
    IsReset (converse service clock arguments route_sets opus set_name at_rest).1.breaker haiku
served_closes_example =
    served_closes service clock arguments route_sets opus set_name at_rest by_haiku served_by_haiku

abbrev all_open : World service clock arguments
all_open = record { breaker = opened; client_state = 0 }

none_served :
    (converse service clock arguments route_sets opus set_name all_open).0
    ≡ raise (all_routes_unavailable set_name)
unfolding converse candidates fallbacks_for without_primary try_candidates attempt allow allow_one
    breaker_of write record_failure fail_one record_success Dict.get Dict.put
none_served = refl

unavailable_no_call_example :
    ((converse service clock arguments route_sets opus set_name all_open).1.client_state ≡ 0)
    × (set_name ≡ set_name)
unavailable_no_call_example =
    unavailable_no_call service clock arguments route_sets opus set_name set_name all_open
      none_served
