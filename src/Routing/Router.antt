-- ===== src/Routing/Router.antt =====
-- services/gateway/routing/router.py: `CertifiedRouter`.
pub mod Outcomes
pub mod Unavailable
pub mod Alike
use bedrock_gateway_platform.Base.{
  ℕ, suc, ◌<◌, String, Bool, true, false, Option, none, some, List, [], ◌∷◌, Result, ok, raise,
  string_eq, ◌==◌, ltb,
}
use bedrock_gateway_platform.Dict
use bedrock_gateway_platform.Dict.{Dict}
use bedrock_gateway_platform.Inference.{
  BedrockInvocationError, ConverseArguments, ConverseClient, ConverseResult,
}
use bedrock_gateway_platform.Routing.Breaker
use bedrock_gateway_platform.Routing.Breaker.{CircuitBreaker}

pub record RouteSet : Type 0 where
  pub name : String
  pub primary : String
  pub fallbacks : List String

pub record RoutedResult : Type 0 where
  pub result : ConverseResult
  pub model_id : String
  pub fallback : Bool

-- What `converse` raises: `AllRoutesUnavailableError` holds the name of the route set.
pub data RouterError : Type 0 where
  invocation : BedrockInvocationError → RouterError
  all_routes_unavailable : Option String → RouterError

abbrev pub fallbacks_in : Option RouteSet → List String
fallbacks_in none = []
fallbacks_in (some route_set) = route_set.fallbacks

unfoldable pub fallbacks_for : Dict String RouteSet → Option String → List String
fallbacks_for route_sets none = []
fallbacks_for route_sets (some name) = fallbacks_in (Dict.get name route_sets)

-- [m for m in fallbacks if m != primary_model_id]
unfoldable pub without_primary : String → List String → List String
without_primary primary [] = []
without_primary primary (m ∷ ms) =
    let rest = without_primary primary ms in elim (m == primary) [ true ↦ rest | false ↦ m ∷ rest ]

unfoldable pub candidates : Dict String RouteSet → String → Option String → List String
candidates route_sets primary route_set_name =
    primary ∷ without_primary primary (fallbacks_for route_sets route_set_name)

-- The readings of the clock: the n-th candidate's breaker is asked at `allow_at n`, and a failure of
-- its call is recorded at `fail_at n`.
pub record LoopClock : Type 0 where
  pub allow_at : ℕ → ℕ
  pub fail_at : ℕ → ℕ

-- One round of the loop ends in `continue`, in `except … continue` or in `return`.
pub data Attempt : Type 0 where
  skipped : Attempt
  failed : BedrockInvocationError → Attempt
  served : ConverseResult → Attempt

module _ (client : ConverseClient) (clock : LoopClock) (arguments : ConverseArguments) where
  -- The state that the loop changes.
  pub record World : Type 0 where
    pub breaker : CircuitBreaker
    pub client_state : client.State

  abbrev pub settle :
      ℕ
      → String
      → CircuitBreaker
      → Result BedrockInvocationError ConverseResult × client.State
      → Attempt × World
  settle index model_id breaker (raise exc, s) = (
    failed exc,
    record {
      breaker = Breaker.record_failure (clock.fail_at index) breaker model_id;
      client_state = s;
    },
  )
  settle index model_id breaker (ok result, s) = (
    served result,
    record { breaker = Breaker.record_success breaker model_id; client_state = s },
  )

  abbrev pub ask : ℕ → String → client.State → Bool × CircuitBreaker → Attempt × World
  ask index model_id s (false, breaker) = (skipped, record { breaker = breaker; client_state = s })
  ask index model_id s (true, breaker) =
      settle index model_id breaker (client.converse s model_id arguments)

  -- The body of the loop for one candidate.
  unfoldable pub attempt : ℕ → String → World → Attempt × World
  attempt index model_id w =
      ask index model_id w.client_state (Breaker.allow (clock.allow_at index) w.breaker model_id)

  abbrev pub give_up : Option String → Option BedrockInvocationError → RouterError
  give_up route_set_name (some exc) = invocation exc
  give_up route_set_name none = all_routes_unavailable route_set_name

  -- What the loop does after a round, with the rounds that are left.
  abbrev pub continue :
      ℕ
      → String
      → Option BedrockInvocationError
      → Attempt × World
      → (Option BedrockInvocationError → World → Result RouterError RoutedResult × World)
      → Result RouterError RoutedResult × World
  continue index model_id last_error (skipped, w) rest = rest last_error w
  continue index model_id last_error (failed exc, w) rest = rest (some exc) w
  continue index model_id last_error (served result, w) rest =
      (ok (record { result = result; model_id = model_id; fallback = ltb 0 index }), w)

  unfoldable pub try_candidates :
      Option String
      → ℕ
      → List String
      → Option BedrockInvocationError
      → World
      → Result RouterError RoutedResult × World
  try_candidates name index [] last_error w = (raise (give_up name last_error), w)
  try_candidates name index (m ∷ ms) last_error w =
      continue index m last_error (attempt index m w) (try_candidates name (suc index) ms)

  unfoldable pub converse :
      Dict String RouteSet
      → String
      → Option String
      → World
      → Result RouterError RoutedResult × World
  converse route_sets primary_model_id route_set_name w =
      try_candidates route_set_name 0 (candidates route_sets primary_model_id route_set_name) none w
