-- ===== src/Routing/Breaker.antt =====
-- services/gateway/routing/circuit_breaker.py: `CircuitBreaker`. Each method is one critical section.
-- `now` is the reading of the monotonic clock, in nanoseconds, that the method may take;
-- `now - opened_at >= timeout` is written as `opened_at + timeout ≤ now`.
pub mod Steps
pub mod Runs
pub mod Storms
pub mod Trials
use bedrock_gateway_platform.Base.{
  ℕ, ◌+◌, String, Bool, true, false, ◌||◌, Option, none, some, string_eq, leb, if◌then◌else◌,
}
use bedrock_gateway_platform.Dict
use bedrock_gateway_platform.Dict.{Dict}

pub data BreakerState : Type 0 where
  closed open_ half_open : BreakerState

pub record ModelBreaker : Type 0 where
  pub state : BreakerState
  pub consecutive_failures : ℕ
  pub opened_at : ℕ

pub record CircuitBreaker : Type 0 where
  pub failure_threshold : ℕ
  pub reset_timeout : ℕ
  pub breakers : Dict String ModelBreaker

abbrev pub new_breaker : ModelBreaker
new_breaker = record { state = closed; consecutive_failures = 0; opened_at = 0 }

abbrev pub or_new : Option ModelBreaker → ModelBreaker
or_new none = new_breaker
or_new (some b) = b

-- `_get`: a model that was never seen has a new breaker.
unfoldable pub breaker_of : CircuitBreaker → String → ModelBreaker
breaker_of cb model_id = or_new (Dict.get model_id cb.breakers)

-- The methods hold a reference to the breaker in the table, so what they assign is written there.
unfoldable pub write : CircuitBreaker → String → ModelBreaker → CircuitBreaker
write cb model_id b = record cb { breakers = Dict.put model_id b cb.breakers }

-- The body of `allow` on one breaker.
unfoldable pub allow_one : ℕ → ℕ → ModelBreaker → BreakerState → Bool × ModelBreaker
allow_one timeout now b open_ =
    if leb (b.opened_at + timeout) now then (true, record b { state = half_open }) else (false, b)
allow_one timeout now b closed = (true, b)
allow_one timeout now b half_open = (true, b)

unfoldable pub allow : ℕ → CircuitBreaker → String → Bool × CircuitBreaker
allow now cb model_id =
    let b = breaker_of cb model_id in
    let (allowed, b') = allow_one cb.reset_timeout now b b.state in (allowed, write cb model_id b')

unfoldable pub record_success : CircuitBreaker → String → CircuitBreaker
record_success cb model_id =
    write cb model_id (record (breaker_of cb model_id) { state = closed; consecutive_failures = 0 })

abbrev pub is_half_open : BreakerState → Bool
is_half_open half_open = true
is_half_open _ = false

-- The body of `record_failure` on one breaker.
unfoldable pub fail_one : ℕ → ℕ → ModelBreaker → ModelBreaker
fail_one threshold now b =
    let failures = b.consecutive_failures + 1 in
    if is_half_open b.state || leb threshold failures
    then record { state = open_; consecutive_failures = failures; opened_at = now }
    else record b { consecutive_failures = failures }

unfoldable pub record_failure : ℕ → CircuitBreaker → String → CircuitBreaker
record_failure now cb model_id =
    write cb model_id (fail_one cb.failure_threshold now (breaker_of cb model_id))

-- Also a look at the state enters a new breaker into the table.
unfoldable pub state_of : CircuitBreaker → String → BreakerState × CircuitBreaker
state_of cb model_id = let b = breaker_of cb model_id in (b.state, write cb model_id b)
