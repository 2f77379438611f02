-- ===== src/Routing/Router/Unavailable.antt =====
-- The loop of routing/router.py and the circuit breakers.
use bedrock_gateway_platform.Base.{
  ℕ, suc, ◌≡◌, ◌≢◌, inl, inr, refl, ◌∙◌, String, Bool, true, false, Option, none, some, List, [],
  ◌∷◌, Result, ok, raise, string_eq, arith,
}
use bedrock_gateway_platform.Dict.{Dict}
use bedrock_gateway_platform.Inference.{
  BedrockInvocationError, ConverseArguments, ConverseClient, ConverseResult,
}
use bedrock_gateway_platform.Routing.Breaker
use bedrock_gateway_platform.Routing.Breaker.{CircuitBreaker, closed, breaker_of}
use bedrock_gateway_platform.Routing.Breaker.Steps.{success, apply, apply_one, breaker_of-apply}
use bedrock_gateway_platform.Routing.Router.{
  RouteSet, RoutedResult, all_routes_unavailable, candidates, LoopClock, Attempt, skipped, failed,
  served, World, settle, ask, attempt, continue, try_candidates, converse,
}
use bedrock_gateway_platform.Routing.Router.Outcomes.{continue_ok}

-- The model's breaker is closed, with no failure on its count.
abbrev pub IsReset : CircuitBreaker → String → Type 0
IsReset cb m = ((breaker_of cb m).state ≡ closed) × ((breaker_of cb m).consecutive_failures ≡ 0)

module _ (client : ConverseClient) (clock : LoopClock) (arguments : ConverseArguments) where
  settle_closes :
      (index : ℕ) (m : String) (breaker : CircuitBreaker)
      (answer : Result BedrockInvocationError ConverseResult × client.State) (x : ConverseResult)
      → (settle client clock arguments index m breaker answer).0 ≡ served x
      → IsReset (settle client clock arguments index m breaker answer).1.breaker m
  unfolding apply apply_one
  settle_closes index m breaker (raise e, s) x h = cc
  settle_closes index m breaker (ok y, s) x h =
      let own = breaker_of-apply success breaker m in (rw own, rw own)

  ask_closes :
      (index : ℕ) (m : String) (s : client.State) (permit : Bool × CircuitBreaker)
      (x : ConverseResult)
      → (ask client clock arguments index m s permit).0 ≡ served x
      → IsReset (ask client clock arguments index m s permit).1.breaker m
  ask_closes index m s (false, breaker) x h = cc
  ask_closes index m s (true, breaker) x h =
      settle_closes index m breaker (client.converse s m arguments) x h

  -- A round that skips has made no call.
  settle_no_skip :
      (index : ℕ) (m : String) (breaker : CircuitBreaker)
      (answer : Result BedrockInvocationError ConverseResult × client.State)
      → (settle client clock arguments index m breaker answer).0 ≢ skipped
  settle_no_skip index m breaker (raise e, s) h = cc
  settle_no_skip index m breaker (ok y, s) h = cc

  ask_skips :
      (index : ℕ) (m : String) (s : client.State) (permit : Bool × CircuitBreaker)
      → (ask client clock arguments index m s permit).0 ≡ skipped
      → (ask client clock arguments index m s permit).1.client_state ≡ s
  ask_skips index m s (false, breaker) h = refl
  ask_skips index m s (true, breaker) h =
      absurd (settle_no_skip index m breaker (client.converse s m arguments) h)

  served_closes_from :
      (name : Option String) (index : ℕ) (ms : List String) (last : Option BedrockInvocationError)
      (w : World client clock arguments) (r : RoutedResult)
      → (try_candidates client clock arguments name index ms last w).0 ≡ ok r
      → IsReset (try_candidates client clock arguments name index ms last w).1.breaker r.model_id
  unfolding try_candidates attempt
  served_closes_from name index [] last w r h = cc
  served_closes_from name index (m ∷ ms) last w r h =
      elim (continue_ok client clock arguments index m last
        (attempt client clock arguments index m w)
        (try_candidates client clock arguments name (suc index) ms) r h) [
          | inl (x, a, e, end) ↦
              let closes =
                ask_closes index m w.client_state (Breaker.allow (clock.allow_at index) w.breaker m)
                  x a in
              rw (e, end) closes
          | inr (l, e, end) ↦ rw end (
              served_closes_from name (suc index) ms l (attempt client clock arguments index m w).1
                r e)
        ]

  -- The model that served a request has a closed breaker with no failure on its count.
  pub served_closes :
      (route_sets : Dict String RouteSet) (primary : String) (name : Option String)
      (w : World client clock arguments) (r : RoutedResult)
      → (converse client clock arguments route_sets primary name w).0 ≡ ok r
      → IsReset (converse client clock arguments route_sets primary name w).1.breaker r.model_id
  unfolding converse
  served_closes route_sets primary name w r h =
      served_closes_from name 0 (candidates route_sets primary name) none w r h

  -- After a failed call the loop never reports that all routes are unavailable.
  failed_not_unavailable :
      (name n : Option String) (index : ℕ) (ms : List String) (e : BedrockInvocationError)
      (w : World client clock arguments)
      → (try_candidates client clock arguments name index ms (some e) w).0
        ≢ raise (all_routes_unavailable n)
  unfolding try_candidates
  failed_not_unavailable name n index [] e w h = cc
  failed_not_unavailable name n index (m ∷ ms) e w h =
      go (attempt client clock arguments index m w) (failed_not_unavailable name n (suc index) ms) h
    where
      go :
          (a : Attempt × World client clock arguments)
          → ((l : BedrockInvocationError) (v : World client clock arguments)
              → (try_candidates client clock arguments name (suc index) ms (some l) v).0
                ≢ raise (all_routes_unavailable n))
          → (continue client clock arguments index m
              (some e)
              a
              (try_candidates client clock arguments name (suc index) ms)).0
            ≡ raise (all_routes_unavailable n)
          → ⊥
      go (skipped, v) k q = k e v q
      go (failed l, v) k q = k l v q
      go (served x, v) k q = cc

  unavailable_no_call_from :
      (name n : Option String) (index : ℕ) (ms : List String) (w : World client clock arguments)
      → (try_candidates client clock arguments name index ms none w).0
        ≡ raise (all_routes_unavailable n)
      → ((try_candidates client clock arguments name index ms none w).1.client_state
          ≡ w.client_state)
        × (n ≡ name)
  unfolding try_candidates attempt
  unavailable_no_call_from name n index [] w h = (refl, ground (arith, h))
  unavailable_no_call_from name n index (m ∷ ms) w h =
      go (attempt client clock arguments index m w)
        (ask_skips index m w.client_state (Breaker.allow (clock.allow_at index) w.breaker m))
        (unavailable_no_call_from name n (suc index) ms) h
    where
      go :
          (a : Attempt × World client clock arguments)
          → (a.0 ≡ skipped → a.1.client_state ≡ w.client_state)
          → ((v : World client clock arguments)
              → (try_candidates client clock arguments name (suc index) ms none v).0
                ≡ raise (all_routes_unavailable n)
              → ((try_candidates client clock arguments name (suc index) ms none v).1.client_state
                  ≡ v.client_state)
                × (n ≡ name))
          → (continue client clock arguments index m none a
              (try_candidates client clock arguments name (suc index) ms)).0
            ≡ raise (all_routes_unavailable n)
          → ((continue client clock arguments index m none a
                (try_candidates client clock arguments name (suc index) ms)).1.client_state
              ≡ w.client_state)
            × (n ≡ name)
      go (skipped, v) same k q = let (kept, named) = k v q in (kept ∙ same refl, named)
      go (failed l, v) same k q = absurd (failed_not_unavailable name n (suc index) ms l v q)
      go (served x, v) same k q = cc

  -- When all routes are reported unavailable no call was made: the client is as it was. The report
  -- names the route set of the request.
  pub unavailable_no_call :
      (route_sets : Dict String RouteSet) (primary : String) (name n : Option String)
      (w : World client clock arguments)
      → (converse client clock arguments route_sets primary name w).0
        ≡ raise (all_routes_unavailable n)
      → ((converse client clock arguments route_sets primary name w).1.client_state
          ≡ w.client_state)
        × (n ≡ name)
  unfolding converse
  unavailable_no_call route_sets primary name n w h =
      unavailable_no_call_from name n 0 (candidates route_sets primary name) w h
