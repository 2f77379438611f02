-- ===== src/Policy/Snapshots/Staleness/Invariants.antt =====
-- What the snapshots of policy/cache.py have in common with the store during a run.
use bedrock_gateway_platform.Base.{
  ℕ, ◌+◌, ◌≤◌, ◌≡◌, ◌⊎◌, Bool-cases, inl, inr, refl, String, false, Option, none, some, List, [],
  ◌∷◌, Result, ok, raise, string_eq, ◌==◌, ==_iff, ltb, arith,
}
use bedrock_gateway_platform.Dict
use bedrock_gateway_platform.Dict.Laws.{get-put, get-pop}
use bedrock_gateway_platform.Policy.Models.{TenantPolicy, UnknownTenantError}
use bedrock_gateway_platform.Policy.Store
use bedrock_gateway_platform.Policy.Store.{PolicyStore}
use bedrock_gateway_platform.Policy.Store.Laws.{get-set_state}
use bedrock_gateway_platform.Policy.Snapshots.{
  Snapshot, PolicySnapshotCache, fresh, probe, fill, refetch, get, invalidate,
}
use bedrock_gateway_platform.Policy.Snapshots.Staleness.{
  Plane, Event, read, change, push, step, run, ReadsBefore, Leaves,
}

-- What is cached for a tenant is what the store holds, but for snapshots that are `Old`.
pub record Settled (Old : Snapshot → Type 0) (t : String) (p : Plane) : Type 0 where
  pub holds :
      (s : Snapshot)
      → Dict.get t p.cache.snapshots ≡ some s
      → (Store.get p.store t ≡ ok s.policy) ⊎ Old s

module _ {Old : Snapshot → Type 0} {t : String} where
  Settled-fill :
      (p : Plane) (u : String) (stored : ℕ) (r : Result UnknownTenantError TenantPolicy)
      → Store.get p.store u ≡ r
      → Settled Old t p
      → Settled Old t (record p { cache = fill stored p.cache u r })
  unfolding fill
  Settled-fill p u stored (raise x) q h = record { holds = h.holds }
  Settled-fill p u stored (ok policy) q h = record {
    holds = λ s e. elim (Bool-cases (u == t)) [
      | inl own ↦
          let same : policy ≡ s.policy = ground (
            arith,
            e,
            own,
            get-put u t (record { policy = policy; cached_at = stored }) p.cache.snapshots,
          ) in
          inl (rw (← same, ← (==_iff u t).0 own) q)
      | inr other ↦ h.holds s (simp (get-put, other) at e)
    ];
  }

  Settled-refetch :
      (p : Plane) (u : String) (stored : ℕ) (o : Option TenantPolicy)
      → Settled Old t p
      → Settled Old t (record p { cache = (refetch stored p.store p.cache u o).1 })
  Settled-refetch p u stored (some policy) h = record { holds = h.holds }
  Settled-refetch p u stored none h = Settled-fill p u stored (Store.get p.store u) refl h

  pub Settled-push :
      (p : Plane) (u : String)
      → Settled Old t p
      → Settled Old t (record p { cache = invalidate p.cache u })
  unfolding invalidate
  Settled-push p u h = record {
    holds = λ s e. elim (Bool-cases (u == t)) [
      | inl own ↦ cc (rw (get-pop, own) at e)
      | inr other ↦ h.holds s (simp (get-pop, other) at e)
    ];
  }

  pub Settled-run :
      (events : List Event) (p : Plane)
      → Leaves t events
      → Settled Old t p
      → Settled Old t (run p events)
  unfolding run step get
  Settled-run [] p l h = h
  Settled-run (read u checked stored ∷ events) p l h =
      Settled-run events _ l (Settled-refetch p u stored (probe checked p.cache u) h)
  Settled-run (change u state ∷ events) p l h =
      Settled-run events _ l.1 (record { holds = λ s e. rw (get-set_state, l.0) (h.holds s e) })
  Settled-run (push u ∷ events) p l h = Settled-run events _ l (Settled-push p u h)

-- No snapshot of the tenant is younger than `time`.
pub record Before (time : ℕ) (t : String) (p : Plane) : Type 0 where
  pub holds : (s : Snapshot) → Dict.get t p.cache.snapshots ≡ some s → s.cached_at ≤ time

module _ {time : ℕ} {t : String} where
  pub Before-fill :
      (p : Plane) (u : String) (stored : ℕ) (r : Result UnknownTenantError TenantPolicy)
      → stored ≤ time
      → Before time t p
      → Before time t (record p { cache = fill stored p.cache u r })
  unfolding fill
  Before-fill p u stored (raise x) q h = record { holds = h.holds }
  Before-fill p u stored (ok policy) q h = record {
    holds = λ s e. ground (
      arith,
      q,
      e,
      h.holds s,
      get-put u t (record { policy = policy; cached_at = stored }) p.cache.snapshots,
    );
  }

  Before-refetch :
      (p : Plane) (u : String) (stored : ℕ) (o : Option TenantPolicy)
      → stored ≤ time
      → Before time t p
      → Before time t (record p { cache = (refetch stored p.store p.cache u o).1 })
  Before-refetch p u stored (some policy) q h = record { holds = h.holds }
  Before-refetch p u stored none q h = Before-fill p u stored (Store.get p.store u) q h

  pub Before-push :
      (p : Plane) (u : String)
      → Before time t p
      → Before time t (record p { cache = invalidate p.cache u })
  unfolding invalidate
  Before-push p u h = record {
    holds = λ s e. ground (arith, e, h.holds s, get-pop u t p.cache.snapshots);
  }

  pub Before-run :
      (events : List Event) (p : Plane)
      → ReadsBefore time events
      → Before time t p
      → Before time t (run p events)
  unfolding run step get
  Before-run [] p b h = h
  Before-run (read u checked stored ∷ events) p b h =
      Before-run events _ b.1 (Before-refetch p u stored (probe checked p.cache u) b.0 h)
  Before-run (change u state ∷ events) p b h = Before-run events _ b (record { holds = h.holds })
  Before-run (push u ∷ events) p b h = Before-run events _ b (Before-push p u h)

-- A snapshot that agrees with the store gives the store's answer, expired or not.
fresh_current :
    (now stored : ℕ) (store : PolicyStore) (c : PolicySnapshotCache) (t : String) (s : Snapshot)
    → Store.get store t ≡ ok s.policy
    → (refetch stored store c t (fresh c.ttl now (some s))).0 ≡ Store.get store t
fresh_current now stored store c t s e = elim (Bool-cases (ltb now (s.cached_at + c.ttl))) [
  | inl hit ↦ rw (hit, e)
  | inr miss ↦ rw miss
]

fresh_expired :
    (now stored : ℕ) (store : PolicyStore) (c : PolicySnapshotCache) (t : String) (s : Snapshot)
    → s.cached_at + c.ttl ≤ now
    → (refetch stored store c t (fresh c.ttl now (some s))).0 ≡ Store.get store t
fresh_expired now stored store c t s late =
    let miss : ltb now (s.cached_at + c.ttl) ≡ false = ground (arith, late) in rw miss

-- A read of a settled plane, at a time when the old snapshots have expired.
pub get-Settled :
    {Old : Snapshot → Type 0} {t : String} (p : Plane) (now stored : ℕ)
    → Settled Old t p
    → ((s : Snapshot) → Old s → s.cached_at + p.cache.ttl ≤ now)
    → (get now stored p.store p.cache t).0 ≡ Store.get p.store t
unfolding get probe
get-Settled {Old = Old} {t = t} p now stored h expired = go (Dict.get t p.cache.snapshots) h.holds
  where
    go :
        (o : Option Snapshot)
        → ((s : Snapshot) → o ≡ some s → (Store.get p.store t ≡ ok s.policy) ⊎ Old s)
        → (refetch stored p.store p.cache t (fresh p.cache.ttl now o)).0 ≡ Store.get p.store t
    go none k = refl
    go (some s) k = elim (k s refl) [
      | inl current ↦ fresh_current now stored p.store p.cache t s current
      | inr old ↦ fresh_expired now stored p.store p.cache t s (expired s old)
    ]
