-- ===== src/Routing/Router/Alike.antt =====
-- What of routing/router.py depends on the name of the route set: the fallbacks, and the error that
-- names it.
use bedrock_gateway_platform.Base.{
  ℕ, suc, ◌≡◌, refl, String, Option, none, some, List, [], ◌∷◌, Result, ok, raise, string_eq,
}
use bedrock_gateway_platform.Dict.{Dict}
use bedrock_gateway_platform.Inference.{BedrockInvocationError, ConverseArguments, ConverseClient}
use bedrock_gateway_platform.Routing.Breaker.{CircuitBreaker}
use bedrock_gateway_platform.Routing.Router.{
  RouteSet, RoutedResult, RouterError, invocation, all_routes_unavailable, fallbacks_for,
  without_primary, candidates, LoopClock, Attempt, skipped, failed, served, World, attempt,
  continue, try_candidates, converse,
}

-- The same result, or the same error but for the name of a route set.
abbrev pub Alike : Result RouterError RoutedResult → Result RouterError RoutedResult → Type 0
Alike (ok x) (ok y) = x ≡ y
Alike (raise (invocation e)) (raise (invocation f)) = e ≡ f
Alike (raise (all_routes_unavailable a)) (raise (all_routes_unavailable b)) = Unit {0}
Alike _ _ = ⊥

-- Two calls of the router go alike, and leave the breakers and the client in the same state.
pub record SameRouting {client : ConverseClient} {clock : LoopClock} {a b : ConverseArguments}
    (x : Result RouterError RoutedResult × World client clock a)
    (y : Result RouterError RoutedResult × World client clock b) : Type 0 where
  pub result : Alike x.0 y.0
  pub breaker : x.1.breaker ≡ y.1.breaker
  pub client_state : x.1.client_state ≡ y.1.client_state

module _ (client : ConverseClient) (clock : LoopClock) (arguments : ConverseArguments) where
  continue-SameRouting :
      (name other : Option String) (index : ℕ) (m : String) (ms : List String)
      (last : Option BedrockInvocationError) (o : Attempt × World client clock arguments)
      → ((last' : Option BedrockInvocationError) (w : World client clock arguments)
          → SameRouting
              (try_candidates client clock arguments name (suc index) ms last' w)
              (try_candidates client clock arguments other (suc index) ms last' w))
      → SameRouting
          (continue client clock arguments index m last o
            (try_candidates client clock arguments name (suc index) ms))
          (continue client clock arguments index m last o
            (try_candidates client clock arguments other (suc index) ms))
  continue-SameRouting name other index m ms last (skipped, w) h = h last w
  continue-SameRouting name other index m ms last (failed exc, w) h = h (some exc) w
  continue-SameRouting name other index m ms last (served result, w) h = record {
    result = refl;
    breaker = refl;
    client_state = refl;
  }

  pub try_candidates-SameRouting :
      (name other : Option String) (index : ℕ) (ms : List String)
      (last : Option BedrockInvocationError) (w : World client clock arguments)
      → SameRouting
          (try_candidates client clock arguments name index ms last w)
          (try_candidates client clock arguments other index ms last w)
  unfolding try_candidates
  try_candidates-SameRouting name other index [] none w = record {
    result = tt;
    breaker = refl;
    client_state = refl;
  }
  try_candidates-SameRouting name other index [] (some exc) w = record {
    result = refl;
    breaker = refl;
    client_state = refl;
  }
  try_candidates-SameRouting name other index (m ∷ ms) last w =
      continue-SameRouting name other index m ms last (attempt client clock arguments index m w)
        (try_candidates-SameRouting name other (suc index) ms)

  -- The same primary model and the same fallbacks.
  pub converse-SameRouting :
      (sets : Dict String RouteSet) (m : String) (name other : Option String)
      (w : World client clock arguments)
      → fallbacks_for sets name ≡ fallbacks_for sets other
      → SameRouting
          (converse client clock arguments sets m name w)
          (converse client clock arguments sets m other w)
  unfolding converse candidates
  converse-SameRouting sets m name other w h = rw h (
      try_candidates-SameRouting name other 0 (m ∷ without_primary m (fallbacks_for sets other))
        none w)

-- The same for equal arguments.
pub converse-SameRouting_at :
    (client : ConverseClient) (clock : LoopClock) (a b : ConverseArguments)
    (sets : Dict String RouteSet) (m n : String) (name other : Option String)
    (breaker : CircuitBreaker) (state : client.State)
    → a ≡ b
    → m ≡ n
    → fallbacks_for sets name ≡ fallbacks_for sets other
    → SameRouting
        (converse client clock a sets m name (record { breaker = breaker; client_state = state }))
        (converse client clock b sets n other (record { breaker = breaker; client_state = state }))
converse-SameRouting_at client clock a b sets m n name other breaker state arguments model h =
    rw (← arguments, ← model) (converse-SameRouting client clock a sets m name other _ h)
