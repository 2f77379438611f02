-- ===== src/Routing/Breaker/Storms.antt =====
-- A storm of calls for a model whose breaker in routing/circuit_breaker.py has opened.
use bedrock_gateway_platform.Base.{
  ℕ, ◌+◌, ◌≤◌, ◌<◌, ◌≡◌, ◌⊎◌, inl, inr, ◌∙◌, ap, String, Bool, true, false, [], ◌∷◌, string_eq,
  ◌==◌, ==_iff, Bool-cases, arith,
}
use bedrock_gateway_platform.Routing.Breaker.{
  open_, half_open, ModelBreaker, CircuitBreaker, breaker_of, allow_one, allow, fail_one,
  record_failure,
}
use bedrock_gateway_platform.Routing.Breaker.Steps.{
  Method, allow_at, success, failure_at, look, apply, apply_one, apply_isolated, apply_settings,
  breaker_of-apply,
}
use bedrock_gateway_platform.Routing.Breaker.Runs.{History, run}

-- In a storm a model has no success, its failures come at `start` or later, and its calls of `allow`
-- before `finish`.
abbrev pub InStorm : ℕ → ℕ → Method → Type 0
InStorm start finish (allow_at now) = now < finish
InStorm start finish success = ⊥
InStorm start finish (failure_at now) = start ≤ now
InStorm start finish look = Unit {0}

abbrev pub Storm : String → ℕ → ℕ → History → Type 0
Storm m start finish [] = Unit {0}
Storm m start finish ((k, f) ∷ rest) =
    ((k == m) ≡ true → InStorm start finish f) × Storm m start finish rest

record Tripped (start : ℕ) (b : ModelBreaker) : Type 0 where
  open_now : b.state ≡ open_
  since : start ≤ b.opened_at

Tripped-allow_one :
    (threshold timeout start now : ℕ) (b : ModelBreaker)
    → now < start + timeout
    → Tripped start b
    → allow_one timeout now b b.state ≡ (false, b)
unfolding allow_one
Tripped-allow_one threshold timeout start now b early h = ground (arith, h.open_now, h.since, early)

Tripped-fail_one :
    (threshold start now : ℕ) (b : ModelBreaker)
    → start ≤ now
    → Tripped start b
    → Tripped start (fail_one threshold now b)
unfolding fail_one
Tripped-fail_one threshold start now b later h = ground (arith, h.open_now, h.since, later)

Tripped-trip :
    (threshold start : ℕ) (b : ModelBreaker)
    → (b.state ≡ half_open) ⊎ (threshold ≤ b.consecutive_failures + 1)
    → Tripped start (fail_one threshold start b)
unfolding fail_one
Tripped-trip threshold start b h = ground (arith, h)

module _ (threshold timeout start : ℕ) (m : String) where
  record Stormy (cb : CircuitBreaker) : Type 0 where
    threshold_same : cb.failure_threshold ≡ threshold
    timeout_same : cb.reset_timeout ≡ timeout
    tripped : Tripped start (breaker_of cb m)

  Tripped-apply_one :
      (f : Method) (b : ModelBreaker)
      → InStorm start (start + timeout) f
      → Tripped start b
      → Tripped start (apply_one f threshold timeout b)
  unfolding apply_one
  Tripped-apply_one (allow_at now) b i h =
      rw
        (ap (λ (r : Bool × ModelBreaker). r.1)
          (Tripped-allow_one threshold timeout start now b i h))
        h
  Tripped-apply_one success b i h = absurd i
  Tripped-apply_one (failure_at now) b i h = Tripped-fail_one threshold start now b i h
  Tripped-apply_one look b i h = h

  Stormy-self :
      (f : Method) (cb : CircuitBreaker)
      → InStorm start (start + timeout) f
      → Stormy cb
      → Stormy (apply f cb m)
  Stormy-self f cb i h = record {
    threshold_same = (apply_settings f cb m).0 ∙ h.threshold_same;
    timeout_same = (apply_settings f cb m).1 ∙ h.timeout_same;
    tripped =
        simp (breaker_of-apply, h.threshold_same, h.timeout_same)
          (Tripped-apply_one f (breaker_of cb m) i h.tripped);
  }

  Stormy-other :
      (f : Method) (k : String) (cb : CircuitBreaker)
      → (k == m) ≡ false
      → Stormy cb
      → Stormy (apply f cb k)
  Stormy-other f k cb other h = record {
    threshold_same = (apply_settings f cb k).0 ∙ h.threshold_same;
    timeout_same = (apply_settings f cb k).1 ∙ h.timeout_same;
    tripped = rw (apply_isolated f cb k m other) h.tripped;
  }

  Stormy-run :
      (rest : History) (cb : CircuitBreaker)
      → Storm m start (start + timeout) rest
      → Stormy cb
      → Stormy (run cb rest)
  unfolding run
  Stormy-run [] cb s h = h
  Stormy-run ((k, f) ∷ rest) cb s h = elim (Bool-cases (k == m)) [
    | inl own ↦
        Stormy-run rest (apply f cb k) s.1 (rw ((==_iff k m).0 own) (Stormy-self f cb (s.0 own) h))
    | inr other ↦ Stormy-run rest (apply f cb k) s.1 (Stormy-other f k cb other h)
  ]

  Stormy-allow :
      (cb : CircuitBreaker) (now : ℕ)
      → now < start + timeout
      → Stormy cb
      → (allow now cb m).0 ≡ false
  unfolding allow
  Stormy-allow cb now early h = simp h.timeout_same (
      ap (λ (r : Bool × ModelBreaker). r.0)
        (Tripped-allow_one threshold timeout start now (breaker_of cb m) early h.tripped))

-- Once a failure at `start` has opened a model's breaker (a failed trial, or the threshold reached), no call for that model is let through before
-- `start` and the reset timeout: not while the process goes on with calls for any model, with further
-- failures of this one, unless a call of this model is recorded as a success.
pub open_rejects :
    (cb : CircuitBreaker) (m : String) (start now : ℕ) (storm : History)
    → ((breaker_of cb m).state ≡ half_open)
      ⊎ (cb.failure_threshold ≤ (breaker_of cb m).consecutive_failures + 1)
    → Storm m start (start + cb.reset_timeout) storm
    → now < start + cb.reset_timeout
    → (allow now (run (record_failure start cb m) storm) m).0 ≡ false
unfolding apply apply_one
open_rejects cb m start now storm many s early =
    Stormy-allow cb.failure_threshold cb.reset_timeout start m
      (run (record_failure start cb m) storm) now early
      (Stormy-run cb.failure_threshold cb.reset_timeout start m storm (record_failure start cb m) s
        (record {
          threshold_same = (apply_settings (failure_at start) cb m).0;
          timeout_same = (apply_settings (failure_at start) cb m).1;
          tripped =
              rw (breaker_of-apply (failure_at start) cb m)
                (Tripped-trip cb.failure_threshold start (breaker_of cb m) many);
        }))
