-- ===== src/Policy/Snapshots/Threads/Bounds.antt =====
-- How long a policy that was fetched before a state change can be served from the cache of
-- policy/cache.py, under any interleaving of reads, changes and pushes.
use bedrock_gateway_platform.Base.{
  ℕ, ◌+◌, ◌≤◌, ◌≡◌, inr, refl, ◌∙◌, String, Option, none, some, List, [], ◌∷◌, string_eq, nat_eq,
  ==_refl, arith,
}
use bedrock_gateway_platform.Dict
use bedrock_gateway_platform.Dict.{Dict}
use bedrock_gateway_platform.Policy.Models.{TenantState, TenantPolicy}
use bedrock_gateway_platform.Policy.Store
use bedrock_gateway_platform.Policy.Store.Laws.{get-set_state}
use bedrock_gateway_platform.Policy.Snapshots.{get, invalidate}
use bedrock_gateway_platform.Policy.Snapshots.Staleness.{ttl-fill}
use bedrock_gateway_platform.Policy.Snapshots.Staleness.Invariants.{
  get-Settled, Before, Before-fill, Before-push,
}
use bedrock_gateway_platform.Policy.Snapshots.Threads.{
  Reader, missed, fetched, Threads, Move, start, ask, finish, change, push, after_probe, after_ask,
  after_finish, move, moves,
}
use bedrock_gateway_platform.Policy.Snapshots.Threads.Underway.{
  Leaves, EndBy, AllEndBy, Underway, moves-Underway,
}

module _ (time : ℕ) (t : String) where
  finish-Before :
      (w : Threads) (i stored : ℕ) (o : Option Reader)
      → stored ≤ time
      → Before time t w.plane
      → Before time t (after_finish i stored o w).plane
  finish-Before w i stored none b h = h
  finish-Before w i stored (some (missed u)) b h = h
  finish-Before w i stored (some (fetched u r)) b h = Before-fill w.plane u stored r b h

  ask_plane : (i : ℕ) (o : Option Reader) (w : Threads) → (after_ask i o w).plane ≡ w.plane
  ask_plane i none w = refl
  ask_plane i (some (missed u)) w = refl
  ask_plane i (some (fetched u r)) w = refl

  start_plane :
      (i : ℕ) (u : String) (o : Option TenantPolicy) (w : Threads)
      → (after_probe i u o w).plane ≡ w.plane
  start_plane i u none w = refl
  start_plane i u (some p) w = refl

  moves-Before :
      (ms : List Move) (w : Threads)
      → AllEndBy time ms
      → Before time t w.plane
      → Before time t (moves w ms).plane
  unfolding moves move
  moves-Before [] w b h = h
  moves-Before (start i u checked ∷ ms) w b h = moves-Before ms _ b (rw start_plane h)
  moves-Before (ask i ∷ ms) w b h = moves-Before ms _ b (rw ask_plane h)
  moves-Before (finish i stored ∷ ms) w b h =
      moves-Before ms _ b.1 (finish-Before w i stored (Dict.get i w.readers) b.0 h)
  moves-Before (change u state ∷ ms) w b h = moves-Before ms _ b (record { holds = h.holds })
  moves-Before (push u ∷ ms) w b h = moves-Before ms _ b (Before-push w.plane u h)

  ttl-finish :
      (w : Threads) (i stored : ℕ) (o : Option Reader)
      → (after_finish i stored o w).plane.cache.ttl ≡ w.plane.cache.ttl
  ttl-finish w i stored none = refl
  ttl-finish w i stored (some (missed u)) = refl
  ttl-finish w i stored (some (fetched u r)) = ttl-fill stored w.plane.cache u r

  ttl-moves : (ms : List Move) (w : Threads) → (moves w ms).plane.cache.ttl ≡ w.plane.cache.ttl
  unfolding moves move invalidate
  ttl-moves [] w = refl
  ttl-moves (start i u checked ∷ ms) w = ttl-moves ms _ ∙ rw start_plane
  ttl-moves (ask i ∷ ms) w = ttl-moves ms _ ∙ rw ask_plane
  ttl-moves (finish i stored ∷ ms) w = ttl-moves ms _ ∙ ttl-finish w i stored (Dict.get i w.readers)
  ttl-moves (change u state ∷ ms) w = ttl-moves ms _
  ttl-moves (push u ∷ ms) w = ttl-moves ms _

  finish_store :
      (w : Threads) (i stored : ℕ) (o : Option Reader)
      → Store.get (after_finish i stored o w).plane.store t ≡ Store.get w.plane.store t
  finish_store w i stored none = refl
  finish_store w i stored (some (missed u)) = refl
  finish_store w i stored (some (fetched u r)) = refl

  get-store-moves :
      (ms : List Move) (w : Threads)
      → Leaves t ms
      → Store.get (moves w ms).plane.store t ≡ Store.get w.plane.store t
  unfolding moves move
  get-store-moves [] w l = refl
  get-store-moves (start i u checked ∷ ms) w l = get-store-moves ms _ l ∙ rw start_plane
  get-store-moves (ask i ∷ ms) w l = get-store-moves ms _ l ∙ rw ask_plane
  get-store-moves (finish i stored ∷ ms) w l =
      get-store-moves ms _ l ∙ finish_store w i stored (Dict.get i w.readers)
  get-store-moves (change u state ∷ ms) w l = get-store-moves ms _ l.1 ∙ simp (get-set_state, l.0)
  get-store-moves (push u ∷ ms) w l = get-store-moves ms _ l

  -- Under threads the age of what a read can see is bounded too, but counted from the end of the reads
  -- that were under way. Let the cache be empty at first. Let a tenant's state be changed, and let all
  -- reads that end before the change or are under way at it end at readings of at most `time`. In any
  -- interleaving of later reads, pushes and changes for others, a read of the tenant at a reading of at
  -- least `time` and the lease (`ttl`), run without interruption, gives exactly what the state change
  -- returned.
  pub staleness_bounded_threads :
      (w : Threads) (before after : List Move) (state : TenantState) (now stored : ℕ)
      → w.plane.cache.snapshots ≡ []
      → AllEndBy time before
      → Leaves t after
      → EndBy time (moves w before).readers after
      → time + w.plane.cache.ttl ≤ now
      → let b = moves w before in
        let a = moves (move b (change t state)) after in
        ((get now stored a.plane.store a.plane.cache t).0
          ≡ (Store.set_state b.plane.store t state).0)
  unfolding move Dict.get
  staleness_bounded_threads w before after state now stored e all l ends late =
      let b = moves w before in
      let c = move b (change t state) in
      let old = moves-Before before w all (record { holds = λ s h. ground (arith, e, h) }) in
      let start_here : Underway time t b.readers c = record {
        snapshots = record { holds = λ s h. inr (old.holds s h) };
        readers = λ i r h. inr (λ none_there. cc (h, none_there));
      } in
      let end_ = moves-Underway time t b.readers after c l ends start_here in
      get-Settled (moves c after).plane now stored end_.snapshots
        (λ s h. omega (arith, ttl-moves after c, ttl-moves before w))
      ∙ get-store-moves after c l
      ∙ simp (get-set_state, ==_refl t)
