-- ===== src/Policy/Snapshots/Threads.antt =====
-- policy/cache.py under threads: `PolicySnapshotCache.get` holds its lock twice and asks the store in
-- between, so that other threads may run between the three steps. Reads are told apart by number.
pub mod Underway
pub mod Bounds
pub mod LateFill
use bedrock_gateway_platform.Base.{ℕ, String, Option, none, some, List, [], ◌∷◌, Result, nat_eq}
use bedrock_gateway_platform.Dict
use bedrock_gateway_platform.Dict.{Dict}
use bedrock_gateway_platform.Policy.Models.{TenantState, TenantPolicy, UnknownTenantError}
use bedrock_gateway_platform.Policy.Store
use bedrock_gateway_platform.Policy.Snapshots.{probe, fill, invalidate}
use bedrock_gateway_platform.Policy.Snapshots.Staleness.{Plane}

-- A read after its first critical section, which found no snapshot, or after the store's answer.
pub data Reader : Type 0 where
  missed : String → Reader
  fetched : String → Result UnknownTenantError TenantPolicy → Reader

pub record Threads : Type 0 where
  pub plane : Plane
  pub readers : Dict ℕ Reader

-- A read starts at a reading of the clock, asks the store, and ends at another reading. A state change
-- and a push are one step each.
pub data Move : Type 0 where
  start : ℕ → String → ℕ → Move
  ask : ℕ → Move
  finish : ℕ → ℕ → Move
  change : String → TenantState → Move
  push : String → Move

abbrev pub after_probe : ℕ → String → Option TenantPolicy → Threads → Threads
after_probe i u (some policy) w = w
after_probe i u none w = record w { readers = Dict.put i (missed u) w.readers }

abbrev pub after_ask : ℕ → Option Reader → Threads → Threads
after_ask i (some (missed u)) w = record w {
  readers = Dict.put i (fetched u (Store.get w.plane.store u)) w.readers;
}
after_ask i _ w = w

abbrev pub after_finish : ℕ → ℕ → Option Reader → Threads → Threads
after_finish i stored (some (fetched u answer)) w = record {
  plane = record w.plane { cache = fill stored w.plane.cache u answer };
  readers = Dict.pop i w.readers;
}
after_finish i stored _ w = w

unfoldable pub move : Threads → Move → Threads
move w (start i u checked) = after_probe i u (probe checked w.plane.cache u) w
move w (ask i) = after_ask i (Dict.get i w.readers) w
move w (finish i stored) = after_finish i stored (Dict.get i w.readers) w
move w (change u state) = record w {
  plane = record w.plane { store = (Store.set_state w.plane.store u state).1 };
}
move w (push u) = record w { plane = record w.plane { cache = invalidate w.plane.cache u } }

-- The state after the moves, in order.
unfoldable pub moves : Threads → List Move → Threads
moves w [] = w
moves w (m ∷ ms) = moves (move w m) ms
