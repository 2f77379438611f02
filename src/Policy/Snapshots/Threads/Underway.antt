-- ===== src/Policy/Snapshots/Threads/Underway.antt =====
-- What the snapshots and the reads under way of policy/cache.py hold of a tenant since its state was
-- changed.
use bedrock_gateway_platform.Base.{
  ℕ, ◌≤◌, ◌≡◌, ◌≢◌, ◌⊎◌, inl, inr, refl, String, false, Option, none, some, List, [], ◌∷◌, Result,
  ok, raise, string_eq, nat_eq, ◌==◌, ==_iff, Bool-cases, arith,
}
use bedrock_gateway_platform.Dict
use bedrock_gateway_platform.Dict.{Dict}
use bedrock_gateway_platform.Dict.Laws.{get-put, get-pop}
use bedrock_gateway_platform.Policy.Models.{TenantPolicy, UnknownTenantError}
use bedrock_gateway_platform.Policy.Store
use bedrock_gateway_platform.Policy.Store.Laws.{get-set_state}
use bedrock_gateway_platform.Policy.Snapshots.{Snapshot, probe, fill}
use bedrock_gateway_platform.Policy.Snapshots.Staleness.{Plane}
use bedrock_gateway_platform.Policy.Snapshots.Staleness.Invariants.{Settled, Settled-push}
use bedrock_gateway_platform.Policy.Snapshots.Threads.{
  Reader, missed, fetched, Threads, Move, start, ask, finish, change, push, after_probe, after_ask,
  after_finish, move, moves,
}

-- No move changes the tenant's state.
abbrev pub Leaves : String → List Move → Type 0
Leaves t [] = Unit {0}
Leaves t (change u state ∷ ms) = ((u == t) ≡ false) × Leaves t ms
Leaves t (_ ∷ ms) = Leaves t ms

-- The reads that are under way in `readers` end no later than `time`.
abbrev pub EndBy : ℕ → Dict ℕ Reader → List Move → Type 0
EndBy time readers [] = Unit {0}
EndBy time readers (finish i stored ∷ ms) =
    (Dict.get i readers ≢ none → stored ≤ time) × EndBy time readers ms
EndBy time readers (_ ∷ ms) = EndBy time readers ms

-- All reads end no later than `time`.
abbrev pub AllEndBy : ℕ → List Move → Type 0
AllEndBy time [] = Unit {0}
AllEndBy time (finish i stored ∷ ms) = (stored ≤ time) × AllEndBy time ms
AllEndBy time (_ ∷ ms) = AllEndBy time ms

abbrev pub OlderThan : ℕ → Snapshot → Type 0
OlderThan time s = s.cached_at ≤ time

module _ (time : ℕ) (t : String) where
  -- Since the state change: what is cached for the tenant is current or old, and a read that holds an
  -- answer for the tenant holds the current one or was under way at the change.
  pub record Underway (before : Dict ℕ Reader) (w : Threads) : Type 0 where
    pub snapshots : Settled (OlderThan time) t w.plane
    pub readers :
        (i : ℕ) (r : Result UnknownTenantError TenantPolicy)
        → Dict.get i w.readers ≡ some (fetched t r)
        → (Store.get w.plane.store t ≡ r) ⊎ (Dict.get i before ≢ none)

  fill-Settled :
      (p : Plane) (u : String) (stored : ℕ) (r : Result UnknownTenantError TenantPolicy)
      → (u ≡ t → (Store.get p.store t ≡ r) ⊎ (stored ≤ time))
      → Settled (OlderThan time) t p
      → Settled (OlderThan time) t (record p { cache = fill stored p.cache u r })
  unfolding fill
  fill-Settled p u stored (raise x) q h = record { holds = h.holds }
  fill-Settled p u stored (ok policy) q h = record {
    holds = λ s e. elim (Bool-cases (u == t)) [
      | inl own ↦ ground (
        arith,
        e,
        own,
        q ((==_iff u t).0 own),
        get-put u t (record { policy = policy; cached_at = stored }) p.cache.snapshots,
      )
      | inr other ↦ h.holds s (simp (get-put, other) at e)
    ];
  }

  start-Underway :
      (before : Dict ℕ Reader) (w : Threads) (i : ℕ) (u : String) (o : Option TenantPolicy)
      → Underway before w
      → Underway before (after_probe i u o w)
  start-Underway before w i u (some policy) h = h
  start-Underway before w i u none h = record {
    snapshots = h.snapshots;
    readers = λ j r e. ground (arith, e, h.readers j r, get-put i j (missed u) w.readers);
  }

  ask-Underway :
      (before : Dict ℕ Reader) (w : Threads) (i : ℕ) (o : Option Reader)
      → Underway before w
      → Underway before (after_ask i o w)
  ask-Underway before w i none h = h
  ask-Underway before w i (some (fetched u r)) h = h
  ask-Underway before w i (some (missed u)) h = record {
    snapshots = h.snapshots;
    readers = λ j r e.
        ground
          (arith, e, h.readers j r, get-put i j (fetched u (Store.get w.plane.store u)) w.readers);
  }

  finish-Underway :
      (before : Dict ℕ Reader) (w : Threads) (i stored : ℕ) (o : Option Reader)
      → Dict.get i w.readers ≡ o
      → (Dict.get i before ≢ none → stored ≤ time)
      → Underway before w
      → Underway before (after_finish i stored o w)
  finish-Underway before w i stored none q b h = h
  finish-Underway before w i stored (some (missed u)) q b h = h
  finish-Underway before w i stored (some (fetched u r)) q b h = record {
    snapshots =
        fill-Settled w.plane u stored r
          (λ own. elim (h.readers i r (rw own at q)) [
            | inl current ↦ inl current
            | inr old ↦ inr (b old)
          ])
          h.snapshots;
    readers = λ j a e. ground (arith, e, h.readers j a, get-pop i j w.readers);
  }

  pub moves-Underway :
      (before : Dict ℕ Reader) (ms : List Move) (w : Threads)
      → Leaves t ms
      → EndBy time before ms
      → Underway before w
      → Underway before (moves w ms)
  unfolding moves move
  moves-Underway before [] w l b h = h
  moves-Underway before (start i u checked ∷ ms) w l b h =
      moves-Underway before ms _ l b (start-Underway before w i u (probe checked w.plane.cache u) h)
  moves-Underway before (ask i ∷ ms) w l b h =
      moves-Underway before ms _ l b (ask-Underway before w i (Dict.get i w.readers) h)
  moves-Underway before (finish i stored ∷ ms) w l b h =
      moves-Underway before ms _ l b.1
        (finish-Underway before w i stored (Dict.get i w.readers) refl b.0 h)
  moves-Underway before (change u state ∷ ms) w l b h = moves-Underway before ms _ l.1 b (record {
    snapshots = record { holds = λ s e. rw (get-set_state, l.0) (h.snapshots.holds s e) };
    readers = λ i r e. rw (get-set_state, l.0) (h.readers i r e);
  })
  moves-Underway before (push u ∷ ms) w l b h =
      moves-Underway before ms _ l b
        (record { snapshots = Settled-push w.plane u h.snapshots; readers = h.readers })
