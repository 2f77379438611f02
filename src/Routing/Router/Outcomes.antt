-- ===== src/Routing/Router/Outcomes.antt =====
-- What the loop of routing/router.py returns, and what it leaves alone.
use bedrock_gateway_platform.Base.{
  ℕ, suc, ◌≡◌, ◌≢◌, ◌⊎◌, inl, inr, refl, String, true, false, Option, none, some, List, [], ◌∷◌,
  Result, ok, string_eq, ==_iff, ==_refl, ltb, contains, arith,
}
use bedrock_gateway_platform.Dict.{Dict}
use bedrock_gateway_platform.Inference.{
  BedrockInvocationError, ConverseArguments, ConverseClient, ConverseResult,
}
use bedrock_gateway_platform.Routing.Router.{
  RouteSet, RoutedResult, RouterError, fallbacks_for, without_primary, candidates, LoopClock,
  Attempt, skipped, failed, served, World, attempt, continue, try_candidates, converse,
}

not-among-without_primary :
    (p : String) (ms : List String) → contains p (without_primary p ms) ≡ false
unfolding without_primary
not-among-without_primary p [] = refl
not-among-without_primary p (m ∷ ms) = ground (arith, not-among-without_primary p ms)

among-without_primary :
    (p k : String) (ms : List String)
    → contains k (without_primary p ms) ≡ true
    → (contains k ms ≡ true) × (k ≢ p)
unfolding without_primary
among-without_primary p k [] h = cc
among-without_primary p k (m ∷ ms) h =
    ground (arith, among-without_primary p k ms, ==_iff m p, ==_iff m k)

module _ (client : ConverseClient) (clock : LoopClock) (arguments : ConverseArguments) where
  -- A round that ends the loop with a result, and a round that goes on.
  pub continue_ok :
      (index : ℕ) (m : String) (last : Option BedrockInvocationError)
      (a : Attempt × World client clock arguments)
      (rest : Option BedrockInvocationError
        → World client clock arguments
        → Result RouterError RoutedResult × World client clock arguments)
      (r : RoutedResult)
      → (continue client clock arguments index m last a rest).0 ≡ ok r
      → ((x : ConverseResult) × (a.0 ≡ served x)
          × (r ≡ record { result = x; model_id = m; fallback = ltb 0 index })
          × ((continue client clock arguments index m last a rest).1 ≡ a.1))
        ⊎ ((l : Option BedrockInvocationError) × ((rest l a.1).0 ≡ ok r)
            × ((continue client clock arguments index m last a rest).1 ≡ (rest l a.1).1))
  continue_ok index m last (skipped, w) rest r h = inr (last, h, refl)
  continue_ok index m last (failed e, w) rest r h = inr (some e, h, refl)
  continue_ok index m last (served x, w) rest r h = inl (x, refl, ground arith, refl)

  served_later :
      (name : Option String) (index : ℕ) (ms : List String) (last : Option BedrockInvocationError)
      (w : World client clock arguments) (r : RoutedResult)
      → (try_candidates client clock arguments name (suc index) ms last w).0 ≡ ok r
      → (contains r.model_id ms ≡ true) × (r.fallback ≡ true)
  unfolding try_candidates
  served_later name index [] last w r h = cc
  served_later name index (m ∷ ms) last w r h =
      elim (continue_ok (suc index) m last (attempt client clock arguments (suc index) m w)
        (try_candidates client clock arguments name (suc (suc index)) ms) r h) [
          | inl (x, a, e, _) ↦ rw e (ground (arith, ==_refl m), ground arith)
          | inr (l, e, _) ↦
              let later =
                served_later name (suc index) ms l
                  (attempt client clock arguments (suc index) m w).1 r e in
              (ground (arith, later.0), later.1)
        ]

  -- Whoever serves: the primary model as such, or a model of the certified fallbacks that is another
  -- than the primary, and flagged as a fallback. No model outside the two is ever reported.
  pub routed_certified :
      (route_sets : Dict String RouteSet) (primary : String) (name : Option String)
      (w : World client clock arguments) (r : RoutedResult)
      → (converse client clock arguments route_sets primary name w).0 ≡ ok r
      → ((r.model_id ≡ primary) × (r.fallback ≡ false))
        ⊎ ((contains r.model_id (fallbacks_for route_sets name) ≡ true)
            × (r.model_id ≢ primary)
            × (r.fallback ≡ true))
  unfolding converse candidates try_candidates
  routed_certified route_sets primary name w r h =
      elim (continue_ok 0 primary none (attempt client clock arguments 0 primary w)
        (try_candidates client clock arguments name 1
          (without_primary primary (fallbacks_for route_sets name)))
        r h) [
          | inl (x, a, e, _) ↦ inl (rw e, rw e)
          | inr (l, e, _) ↦
              let later =
                served_later name 0 (without_primary primary (fallbacks_for route_sets name)) l
                  (attempt client clock arguments 0 primary w).1 r e in
              let certified =
                among-without_primary primary r.model_id (fallbacks_for route_sets name) later.0 in
              inr (certified.0, certified.1, later.1)
        ]
