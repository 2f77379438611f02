-- ===== src/Policy/Snapshots/Staleness/Bounds.antt =====
-- The two ways in which a state change of policy/store.py reaches the readers of policy/cache.py.
use bedrock_gateway_platform.Base.{
  ℕ, ◌+◌, ◌≤◌, ◌≡◌, inr, refl, ◌∙◌, String, List, [], string_eq, ==_refl, arith,
}
use bedrock_gateway_platform.Dict
use bedrock_gateway_platform.Dict.Laws.{get-pop}
use bedrock_gateway_platform.Policy.Models.{TenantState}
use bedrock_gateway_platform.Policy.Store
use bedrock_gateway_platform.Policy.Store.Laws.{get-set_state}
use bedrock_gateway_platform.Policy.Snapshots.{Snapshot, get, invalidate}
use bedrock_gateway_platform.Policy.Snapshots.Staleness.{
  Plane, Event, change, push, step, run, ReadsBefore, Leaves, ttl-run, get-store-run,
}
use bedrock_gateway_platform.Policy.Snapshots.Staleness.Invariants.{
  Settled, Settled-run, Before, Before-run, get-Settled,
}

get-set_state_self :
    (p : Plane) (t : String) (state : TenantState)
    → Store.get (Store.set_state p.store t state).1 t ≡ (Store.set_state p.store t state).0
get-set_state_self p t state = simp (get-set_state, ==_refl t)

abbrev OlderThan : ℕ → Snapshot → Type 0
OlderThan time s = s.cached_at ≤ time

module _ (t : String) (state : TenantState) (after : List Event) where
  changed_read :
      {Old : Snapshot → Type 0} (p q : Plane) (now stored : ℕ)
      → q.store ≡ (Store.set_state p.store t state).1
      → Leaves t after
      → Settled Old t q
      → ((s : Snapshot) → Old s → s.cached_at + q.cache.ttl ≤ now)
      → (get now stored (run q after).store (run q after).cache t).0
        ≡ (Store.set_state p.store t state).0
  changed_read p q now stored e l h expired =
      get-Settled (run q after) now stored (Settled-run after q l h) (rw (ttl-run after q) expired)
      ∙ get-store-run after q t l
      ∙ rw e (get-set_state_self p t state)

  -- The age of what a request can see is bounded, also when no push arrives. From an empty cache,
  -- let a tenant's state be changed when all reads so far filled the cache no later than `time`.
  -- Whatever is read, pushed or changed for others afterwards, a read of that tenant whose clock shows
  -- at least `time` and the lease (`ttl`) gives exactly what the state change returned.
  pub staleness_bounded :
      (p : Plane) (before : List Event) (time now stored : ℕ)
      → p.cache.snapshots ≡ []
      → ReadsBefore time before
      → Leaves t after
      → time + p.cache.ttl ≤ now
      → let q = run (step (run p before) (change t state)) after in
        ((get now stored q.store q.cache t).0 ≡ (Store.set_state (run p before).store t state).0)
  unfolding step Dict.get
  staleness_bounded p before time now stored e b l late =
      let start : Before time t p = record { holds = λ s h. ground (arith, e, h) } in
      let seen : Before time t (run p before) = Before-run before p b start in
      changed_read {Old = OlderThan time} (run p before) _ now stored refl l
        (record { holds = λ s h. inr (seen.holds s h) }) (λ s h. omega (arith, ttl-run before p))

  -- With the push the change is seen at once. From whatever state, after a state change and an
  -- invalidation of the tenant, and whatever is read, pushed or changed for others since, every read of that
  -- tenant gives exactly what the state change returned, whatever the clock shows.
  pub push_immediate :
      (p : Plane) (now stored : ℕ)
      → Leaves t after
      → let q = run (step (step p (change t state)) (push t)) after in
        ((get now stored q.store q.cache t).0 ≡ (Store.set_state p.store t state).0)
  unfolding step invalidate
  push_immediate p now stored l =
      changed_read {Old = λ s. ⊥} p _ now stored refl l
        (record { holds = λ s h. absurd (cc (get-pop t t p.cache.snapshots, ==_refl t)) })
        (λ s h. absurd h)
