-- ===== src/Policy/Snapshots/Threads/LateFill.antt =====
-- The order of steps in which policy/cache.py serves an old policy after a push.
use bedrock_gateway_platform.Base.{
  ℕ, ◌+◌, ◌<◌, ◌≡◌, refl, String, some, [], ◌∷◌, ok, string_eq, nat_eq, lt→ltb, ==_refl,
}
use bedrock_gateway_platform.Dict
use bedrock_gateway_platform.Dict.Laws.{get-put}
use bedrock_gateway_platform.Policy.Models.{TenantState, TenantPolicy}
use bedrock_gateway_platform.Policy.Snapshots.{PolicySnapshotCache, probe, fill, get, invalidate}
use bedrock_gateway_platform.Policy.Store.{PolicyStore}
use bedrock_gateway_platform.Policy.Snapshots.Threads.{
  Threads, fetched, finish, change, push, move, moves,
}

get_filled :
    (store : PolicyStore) (c : PolicySnapshotCache) (t : String) (policy : TenantPolicy)
    (stored now later : ℕ)
    → now < stored + c.ttl
    → (get now later store (fill stored c t (ok policy)) t).0 ≡ ok policy
unfolding get probe fill
get_filled store c t policy stored now later early =
    rw (get-put, ==_refl t, lt→ltb now (stored + c.ttl) early) refl

-- A read that holds the store's answer when the tenant's state is changed undoes the push. When it
-- ends after the change and the push, at whatever reading of the clock, reads get the policy from
-- before the change until a lease has passed since that reading.
pub late_fill :
    (w : Threads) (i : ℕ) (t : String) (policy : TenantPolicy) (state : TenantState)
    (stored now later : ℕ)
    → Dict.get i w.readers ≡ some (fetched t (ok policy))
    → now < stored + w.plane.cache.ttl
    → let a = moves w (change t state ∷ push t ∷ finish i stored ∷ []) in
      ((get now later a.plane.store a.plane.cache t).0 ≡ ok policy)
unfolding moves move invalidate
late_fill w i t policy state stored now later held early =
    rw held (get_filled _ (invalidate w.plane.cache t) t policy stored now later early)
