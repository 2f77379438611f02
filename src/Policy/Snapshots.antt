-- ===== src/Policy/Snapshots.antt =====
-- services/gateway/policy/cache.py: `PolicySnapshotCache`. Times are readings of the monotonic
-- clock, in nanoseconds. `clock() - cached_at < ttl` is written as `clock() < cached_at + ttl`, which
-- says the same of numbers that may lie in either order.
pub mod Staleness
pub mod Threads
pub mod Owners
use bedrock_gateway_platform.Base.{
  ℕ, ◌+◌, String, Option, none, some, string_eq, Result, ok, raise, ltb, if◌then◌else◌,
}
use bedrock_gateway_platform.Dict
use bedrock_gateway_platform.Dict.{Dict}
use bedrock_gateway_platform.Policy.Models.{TenantPolicy, UnknownTenantError}
use bedrock_gateway_platform.Policy.Store
use bedrock_gateway_platform.Policy.Store.{PolicyStore}

pub record Snapshot : Type 0 where
  pub policy : TenantPolicy
  pub cached_at : ℕ

pub record PolicySnapshotCache : Type 0 where
  pub ttl : ℕ
  pub snapshots : Dict String Snapshot

-- The first critical section: the snapshot, if it has not expired at `now`.
abbrev pub fresh : ℕ → ℕ → Option Snapshot → Option TenantPolicy
fresh ttl now none = none
fresh ttl now (some s) = if ltb now (s.cached_at + ttl) then some s.policy else none

unfoldable pub probe : ℕ → PolicySnapshotCache → String → Option TenantPolicy
probe now cache tenant_id = fresh cache.ttl now (Dict.get tenant_id cache.snapshots)

-- The second critical section, after the store's answer.
unfoldable pub fill :
    ℕ → PolicySnapshotCache → String → Result UnknownTenantError TenantPolicy → PolicySnapshotCache
fill now cache tenant_id (raise e) = cache
fill now cache tenant_id (ok policy) = record cache {
  snapshots = Dict.put tenant_id (record { policy = policy; cached_at = now }) cache.snapshots;
}

abbrev pub refetch :
    ℕ
    → PolicyStore
    → PolicySnapshotCache
    → String
    → Option TenantPolicy
    → Result UnknownTenantError TenantPolicy × PolicySnapshotCache
refetch now store cache tenant_id (some policy) = (ok policy, cache)
refetch now store cache tenant_id none =
    let answer = Store.get store tenant_id in (answer, fill now cache tenant_id answer)

-- `checked` and `stored` are the two readings of the clock.
unfoldable pub get :
    ℕ
    → ℕ
    → PolicyStore
    → PolicySnapshotCache
    → String
    → Result UnknownTenantError TenantPolicy × PolicySnapshotCache
get checked stored store cache tenant_id =
    refetch stored store cache tenant_id (probe checked cache tenant_id)

unfoldable pub invalidate : PolicySnapshotCache → String → PolicySnapshotCache
invalidate cache tenant_id = record cache { snapshots = Dict.pop tenant_id cache.snapshots }
