-- ===== src/Policy/Snapshots/Owners.antt =====
-- In policy/store.py and policy/cache.py every policy stands under the name of its own tenant.
use bedrock_gateway_platform.Base.{
  ℕ, ◌≡◌, refl, String, Option, none, some, Result, ok, raise, string_eq, ==_iff, arith,
}
use bedrock_gateway_platform.Dict
use bedrock_gateway_platform.Dict.Laws.{get-put, get-pop}
use bedrock_gateway_platform.Policy.Models.{TenantState, TenantPolicy, UnknownTenantError}
use bedrock_gateway_platform.Policy.Store
use bedrock_gateway_platform.Policy.Store.{PolicyStore, or_unknown, store_state, updated}
use bedrock_gateway_platform.Policy.Snapshots.{
  Snapshot, PolicySnapshotCache, fresh, probe, fill, refetch, get, invalidate,
}

pub record IsKeyed (store : PolicyStore) : Type 0 where
  pub own : (t : String) (p : TenantPolicy) → Dict.get t store.policies ≡ some p → p.tenant_id ≡ t

pub record IsCacheKeyed (cache : PolicySnapshotCache) : Type 0 where
  pub own :
      (t : String) (s : Snapshot) → Dict.get t cache.snapshots ≡ some s → s.policy.tenant_id ≡ t

-- An answer for a tenant is that tenant's policy.
abbrev pub Owned : String → Result UnknownTenantError TenantPolicy → Type 0
Owned t (ok p) = p.tenant_id ≡ t
Owned t (raise e) = Unit {0}

store_state-IsKeyed :
    (s : PolicyStore) (t : String) (state : TenantState) (o : Option TenantPolicy)
    → Dict.get t s.policies ≡ o
    → IsKeyed s
    → IsKeyed (store_state s t state (or_unknown t o)).1
store_state-IsKeyed s t state none q h = h
store_state-IsKeyed s t state (some p) q h = record {
  own = λ u w e.
      ground
        (arith, e, h.own t p q, h.own u w, ==_iff t u, get-put t u (updated p state) s.policies);
}

pub set_state-IsKeyed :
    (s : PolicyStore) (t : String) (state : TenantState)
    → IsKeyed s
    → IsKeyed (Store.set_state s t state).1
unfolding Store.set_state Store.get
set_state-IsKeyed s t state = store_state-IsKeyed s t state (Dict.get t s.policies) refl

or_unknown-Owned :
    (s : PolicyStore) (t : String) (o : Option TenantPolicy)
    → Dict.get t s.policies ≡ o
    → IsKeyed s
    → Owned t (or_unknown t o)
or_unknown-Owned s t none q h = tt
or_unknown-Owned s t (some p) q h = h.own t p q

pub get-Owned : (s : PolicyStore) (t : String) → IsKeyed s → Owned t (Store.get s t)
unfolding Store.get
get-Owned s t = or_unknown-Owned s t (Dict.get t s.policies) refl

fill-IsCacheKeyed :
    (now : ℕ) (c : PolicySnapshotCache) (t : String) (r : Result UnknownTenantError TenantPolicy)
    → Owned t r
    → IsCacheKeyed c
    → IsCacheKeyed (fill now c t r)
unfolding fill
fill-IsCacheKeyed now c t (raise e) w h = h
fill-IsCacheKeyed now c t (ok p) w h = record {
  own = λ u s e. ground (
    arith,
    e,
    w,
    h.own u s,
    ==_iff t u,
    get-put t u (record { policy = p; cached_at = now }) c.snapshots,
  );
}

fresh-Owned :
    (ttl now : ℕ) (c : PolicySnapshotCache) (t : String) (o : Option Snapshot) (p : TenantPolicy)
    → Dict.get t c.snapshots ≡ o
    → IsCacheKeyed c
    → fresh ttl now o ≡ some p
    → p.tenant_id ≡ t
fresh-Owned ttl now c t none p q h e = cc e
fresh-Owned ttl now c t (some s) p q h e = ground (arith, e, h.own t s q)

refetch-keyed :
    (stored : ℕ) (store : PolicyStore) (c : PolicySnapshotCache) (t : String)
    (o : Option TenantPolicy)
    → ((p : TenantPolicy) → o ≡ some p → p.tenant_id ≡ t)
    → IsKeyed store
    → IsCacheKeyed c
    → Owned t (refetch stored store c t o).0 × IsCacheKeyed (refetch stored store c t o).1
refetch-keyed stored store c t (some p) w h k = (w p refl, k)
refetch-keyed stored store c t none w h k =
    let owned = get-Owned store t h in
    (owned, fill-IsCacheKeyed stored c t (Store.get store t) owned k)

-- A read through the cache gives the tenant's own policy, if any, and keeps the cache keyed.
pub get-keyed :
    (checked stored : ℕ) (store : PolicyStore) (c : PolicySnapshotCache) (t : String)
    → IsKeyed store
    → IsCacheKeyed c
    → Owned t (get checked stored store c t).0 × IsCacheKeyed (get checked stored store c t).1
unfolding get probe
get-keyed checked stored store c t h k =
    refetch-keyed stored store c t (probe checked c t)
      (λ p. fresh-Owned c.ttl checked c t (Dict.get t c.snapshots) p refl k) h k

pub invalidate-IsCacheKeyed :
    (c : PolicySnapshotCache) (t : String) → IsCacheKeyed c → IsCacheKeyed (invalidate c t)
unfolding invalidate
invalidate-IsCacheKeyed c t h = record {
  own = λ u s e. ground (arith, e, h.own u s, get-pop t u c.snapshots);
}
