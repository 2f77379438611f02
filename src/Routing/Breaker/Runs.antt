-- ===== src/Routing/Breaker/Runs.antt =====
-- Histories of one model's breaker of routing/circuit_breaker.py: counting, opening and rejecting.
use bedrock_gateway_platform.Base.{
  ℕ, ◌+◌, ◌≤◌, ◌<◌, ◌≡◌, ◌≢◌, ◌↔◌, ◌||◌, ◌⊎◌, inl, inr, refl, ◌∙◌, String, false, List, [], ◌∷◌,
  string_eq, ◌==◌, ==_iff, Bool-cases, leb, if◌then◌else◌, arith,
}
use bedrock_gateway_platform.Dict
use bedrock_gateway_platform.Routing.Breaker.{
  BreakerState, closed, open_, half_open, ModelBreaker, CircuitBreaker, breaker_of, allow_one,
  fail_one, is_half_open,
}
use bedrock_gateway_platform.Routing.Breaker.Steps.{
  Method, allow_at, success, failure_at, look, apply, apply_one, apply_isolated, apply_settings,
  breaker_of-apply,
}

-- The calls that the process makes, in order, each with its model.
abbrev pub History : Type 0
History = List (String × Method)

unfoldable pub run : CircuitBreaker → History → CircuitBreaker
run cb [] = cb
run cb ((m, f) ∷ rest) = run (apply f cb m) rest

abbrev pub count_method : ℕ → Method → ℕ
count_method n success = 0
count_method n (failure_at now) = n + 1
count_method n (allow_at now) = n
count_method n look = n

-- The failures of a model since its last success, on top of `n` before the history.
unfoldable pub streak : String → ℕ → History → ℕ
streak m n [] = n
streak m n ((k, f) ∷ rest) = streak m (if k == m then count_method n f else n) rest

-- A breaker is closed exactly while it has counted fewer failures than the threshold.
pub record IsConsistent (threshold : ℕ) (b : ModelBreaker) : Type 0 where
  pub below : b.state ≡ closed → b.consecutive_failures < threshold
  pub reached : b.state ≢ closed → threshold ≤ b.consecutive_failures

IsConsistent-allow_one :
    (threshold timeout now : ℕ) (b : ModelBreaker) (s : BreakerState)
    → b.state ≡ s
    → IsConsistent threshold b
    → IsConsistent threshold (allow_one timeout now b s).1
unfolding allow_one
IsConsistent-allow_one threshold timeout now b closed e h = h
IsConsistent-allow_one threshold timeout now b half_open e h = h
IsConsistent-allow_one threshold timeout now b open_ e h =
    let many : threshold ≤ b.consecutive_failures = h.reached (λ c. cc) in
    elim (Bool-cases (leb (b.opened_at + timeout) now)) [
      | inl late ↦ rw late (record { below = λ c. cc; reached = λ c. many })
      | inr early ↦ rw early h
    ]

apply_one-IsConsistent :
    (f : Method) (threshold timeout : ℕ) (b : ModelBreaker)
    → 0 < threshold
    → IsConsistent threshold b
    → IsConsistent threshold (apply_one f threshold timeout b)
unfolding apply_one fail_one
apply_one-IsConsistent (allow_at now) threshold timeout b p h =
    IsConsistent-allow_one threshold timeout now b b.state refl h
apply_one-IsConsistent success threshold timeout b p h = record {
  below = λ c. p;
  reached = λ c. absurd (c refl);
}
apply_one-IsConsistent (failure_at now) threshold timeout b p h =
    elim (Bool-cases (is_half_open b.state || leb threshold (b.consecutive_failures + 1))) [
      | inl trips ↦
          simp trips (record { below = λ c. cc; reached = λ c. ground (arith, trips, h.reached) })
      | inr counts ↦ simp counts (record {
        below = λ c. ground (arith, counts);
        reached = λ c. ground (arith, counts, h.reached c);
      })
    ]
apply_one-IsConsistent look threshold timeout b p h = h

count-apply_one :
    (f : Method) (threshold timeout : ℕ) (b : ModelBreaker)
    → (apply_one f threshold timeout b).consecutive_failures ≡ count_method b.consecutive_failures f
unfolding apply_one fail_one allow_one
count-apply_one (allow_at now) threshold timeout b = ground arith
count-apply_one success threshold timeout b = refl
count-apply_one (failure_at now) threshold timeout b = ground arith
count-apply_one look threshold timeout b = refl

closed_cases : (s : BreakerState) → (s ≡ closed) ⊎ (s ≢ closed)
closed_cases closed = inl refl
closed_cases open_ = inr (λ e. cc)
closed_cases half_open = inr (λ e. cc)

-- What a run keeps: the settings, consistency, and the count of failures.
record Counts (threshold n : ℕ) (m : String) (cb : CircuitBreaker) : Type 0 where
  same : cb.failure_threshold ≡ threshold
  consistent : IsConsistent threshold (breaker_of cb m)
  counted : (breaker_of cb m).consecutive_failures ≡ n

Counts-apply_self :
    (f : Method) (threshold n : ℕ) (m : String) (cb : CircuitBreaker)
    → 0 < threshold
    → Counts threshold n m cb
    → Counts threshold (count_method n f) m (apply f cb m)
Counts-apply_self f threshold n m cb p h = record {
  same = (apply_settings f cb m).0 ∙ h.same;
  consistent =
      simp (breaker_of-apply, h.same)
        (apply_one-IsConsistent f threshold cb.reset_timeout (breaker_of cb m) p h.consistent);
  counted = rw (breaker_of-apply, count-apply_one, h.counted);
}

Counts-apply_other :
    (f : Method) (threshold n : ℕ) (k m : String) (cb : CircuitBreaker)
    → (k == m) ≡ false
    → Counts threshold n m cb
    → Counts threshold n m (apply f cb k)
Counts-apply_other f threshold n k m cb other h = record {
  same = (apply_settings f cb k).0 ∙ h.same;
  consistent = rw (apply_isolated f cb k m other) h.consistent;
  counted = rw (apply_isolated f cb k m other) h.counted;
}

Counts-run :
    (rest : History) (threshold n : ℕ) (m : String) (cb : CircuitBreaker)
    → 0 < threshold
    → Counts threshold n m cb
    → Counts threshold (streak m n rest) m (run cb rest)
unfolding run streak
Counts-run [] threshold n m cb p h = h
Counts-run ((k, f) ∷ rest) threshold n m cb p h = elim (Bool-cases (k == m)) [
  | inl own ↦ rw own (
      Counts-run rest threshold (count_method n f) m (apply f cb k) p
        (rw ((==_iff k m).0 own) (Counts-apply_self f threshold n m cb p h)))
  | inr other ↦ rw other (
      Counts-run rest threshold n m (apply f cb k) p
        (Counts-apply_other f threshold n k m cb other h))
]

closed_iff :
    (b : ModelBreaker) (threshold n : ℕ)
    → IsConsistent threshold b
    → b.consecutive_failures ≡ n
    → (b.state ≡ closed) ↔ (n < threshold)
closed_iff b threshold n h e = (
  λ c. rw (← e) (h.below c),
  λ few. elim (closed_cases b.state) [
    | inl is ↦ is
    | inr other ↦ absurd (omega (arith, h.reached other))
  ],
)

-- After any calls for any models, from a new table of breakers with a positive threshold, the breaker
-- of a model is closed exactly if fewer failures than the threshold were recorded for that model since
-- its last success.
pub closed_iff_streak :
    (rest : History) (threshold timeout : ℕ) (m : String)
    → 0 < threshold
    → let cb : CircuitBreaker = record {
      failure_threshold = threshold;
      reset_timeout = timeout;
      breakers = [];
    } in
      ((breaker_of (run cb rest) m).state ≡ closed) ↔ (streak m 0 rest < threshold)
unfolding breaker_of Dict.get
closed_iff_streak rest threshold timeout m p =
    let cb : CircuitBreaker = record {
      failure_threshold = threshold;
      reset_timeout = timeout;
      breakers = [];
    } in
    let c = Counts-run rest threshold 0 m cb p (record {
      same = refl;
      consistent = record { below = λ e. p; reached = λ e. absurd (e refl) };
      counted = refl;
    }) in
    closed_iff (breaker_of (run cb rest) m) threshold (streak m 0 rest) c.consistent c.counted
