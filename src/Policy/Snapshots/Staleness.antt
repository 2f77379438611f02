-- ===== src/Policy/Snapshots/Staleness.antt =====
-- How long policy/cache.py can serve a policy that policy/store.py no longer holds: runs of reads,
-- state changes and pushes, in any order.
pub mod Invariants
pub mod Bounds
use mathlib.Core.Bool.{false≢true}
use bedrock_gateway_platform.Base.{
  ℕ, ◌+◌, ◌≤◌, ◌<◌, ◌≡◌, ◌≢◌, ◌⊎◌, ◌∙◌, Bool-cases, refl, String, Bool, true, false, Option, none,
  some, List, [], ◌∷◌, Result, ok, raise, string_eq, ◌==◌, ==_iff, ==_refl, if◌then◌else◌, arith,
}
use bedrock_gateway_platform.Dict
use bedrock_gateway_platform.Dict.Laws.{get-put, get-pop}
use bedrock_gateway_platform.Policy.Models.{TenantState, TenantPolicy, UnknownTenantError}
use bedrock_gateway_platform.Policy.Store
use bedrock_gateway_platform.Policy.Store.{PolicyStore}
use bedrock_gateway_platform.Policy.Store.Laws.{get-set_state}
use bedrock_gateway_platform.Policy.Snapshots.{
  PolicySnapshotCache, probe, fill, refetch, get, invalidate,
}

pub record Plane : Type 0 where
  pub store : PolicyStore
  pub cache : PolicySnapshotCache

-- A read at two readings of the clock, a state change, and a push invalidation.
pub data Event : Type 0 where
  read : String → ℕ → ℕ → Event
  change : String → TenantState → Event
  push : String → Event

unfoldable pub step : Plane → Event → Plane
step p (read u checked stored) = record p { cache = (get checked stored p.store p.cache u).1 }
step p (change u state) = record p { store = (Store.set_state p.store u state).1 }
step p (push u) = record p { cache = invalidate p.cache u }

unfoldable pub run : Plane → List Event → Plane
run p [] = p
run p (e ∷ events) = run (step p e) events

-- The reads filled the cache no later than `time`.
abbrev pub ReadsBefore : ℕ → List Event → Type 0
ReadsBefore time [] = Unit {0}
ReadsBefore time (read u checked stored ∷ events) = (stored ≤ time) × ReadsBefore time events
ReadsBefore time (change u state ∷ events) = ReadsBefore time events
ReadsBefore time (push u ∷ events) = ReadsBefore time events

-- No event changes the tenant's state.
abbrev pub Leaves : String → List Event → Type 0
Leaves t [] = Unit {0}
Leaves t (read u checked stored ∷ events) = Leaves t events
Leaves t (change u state ∷ events) = ((u == t) ≡ false) × Leaves t events
Leaves t (push u ∷ events) = Leaves t events

pub ttl-fill :
    (now : ℕ) (c : PolicySnapshotCache) (u : String) (r : Result UnknownTenantError TenantPolicy)
    → (fill now c u r).ttl ≡ c.ttl
unfolding fill
ttl-fill now c u (raise x) = refl
ttl-fill now c u (ok policy) = refl

ttl-refetch :
    (now : ℕ) (store : PolicyStore) (c : PolicySnapshotCache) (u : String) (o : Option TenantPolicy)
    → (refetch now store c u o).1.ttl ≡ c.ttl
ttl-refetch now store c u none = ttl-fill now c u (Store.get store u)
ttl-refetch now store c u (some policy) = refl

pub ttl-run : (events : List Event) (p : Plane) → (run p events).cache.ttl ≡ p.cache.ttl
unfolding run step get invalidate
ttl-run [] p = refl
ttl-run (read u checked stored ∷ events) p =
    ttl-run events _ ∙ ttl-refetch stored p.store p.cache u (probe checked p.cache u)
ttl-run (change u state ∷ events) p = ttl-run events _
ttl-run (push u ∷ events) p = ttl-run events _

pub get-store-run :
    (events : List Event) (p : Plane) (t : String)
    → Leaves t events
    → Store.get (run p events).store t ≡ Store.get p.store t
unfolding run step
get-store-run [] p t l = refl
get-store-run (read u checked stored ∷ events) p t l = get-store-run events _ t l
get-store-run (change u state ∷ events) p t l =
    get-store-run events _ t l.1 ∙ simp (get-set_state, l.0)
get-store-run (push u ∷ events) p t l = get-store-run events _ t l
