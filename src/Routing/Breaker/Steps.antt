-- ===== src/Routing/Breaker/Steps.antt =====
-- The breaker of routing/circuit_breaker.py against the state machine of its documentation.
use bedrock_gateway_platform.Base.{
  ℕ, ◌+◌, ◌≤◌, ◌<◌, ◌≡◌, ◌≢◌, ◌↔◌, ◌||◌, ◌∙◌, sym, ◌⊎◌, inl, inr, refl, String, Bool, true, false,
  string_eq, ◌==◌, ==_refl, Bool-cases, leb, if◌then◌else◌, arith,
}
use bedrock_gateway_platform.Dict.Laws.{get-put}
use bedrock_gateway_platform.Routing.Breaker.{
  BreakerState, closed, open_, half_open, ModelBreaker, CircuitBreaker, breaker_of, write,
  allow_one, allow, record_success, fail_one, record_failure, state_of, is_half_open,
}

-- A write is seen at its own model and at no other.
pub breaker_of-write :
    (cb : CircuitBreaker) (m n : String) (b : ModelBreaker)
    → breaker_of (write cb m b) n ≡ (if m == n then b else breaker_of cb n)
unfolding breaker_of write
breaker_of-write cb m n b = ground (arith, get-put m n b cb.breakers)

pub data Method : Type 0 where
  allow_at : ℕ → Method
  success : Method
  failure_at : ℕ → Method
  look : Method

unfoldable pub apply : Method → CircuitBreaker → String → CircuitBreaker
apply (allow_at now) cb m = (allow now cb m).1
apply success cb m = record_success cb m
apply (failure_at now) cb m = record_failure now cb m
apply look cb m = (state_of cb m).1

-- What a call returns: whether it may go on, the state, or nothing.
pub data Answer : Type 0 where
  proceeds : Bool → Answer
  shows : BreakerState → Answer
  nothing : Answer

unfoldable pub answer : Method → CircuitBreaker → String → Answer
answer (allow_at now) cb m = proceeds (allow now cb m).0
answer success cb m = nothing
answer (failure_at now) cb m = nothing
answer look cb m = shows (state_of cb m).0

pub apply_settings :
    (f : Method) (cb : CircuitBreaker) (m : String)
    → ((apply f cb m).failure_threshold ≡ cb.failure_threshold)
      × ((apply f cb m).reset_timeout ≡ cb.reset_timeout)
unfolding apply allow record_success record_failure state_of write
apply_settings (allow_at now) cb m = (refl, refl)
apply_settings success cb m = (refl, refl)
apply_settings (failure_at now) cb m = (refl, refl)
apply_settings look cb m = (refl, refl)

-- No method that is called for one model changes the breaker of another.
pub apply_isolated :
    (f : Method) (cb : CircuitBreaker) (m n : String)
    → (m == n) ≡ false
    → breaker_of (apply f cb m) n ≡ breaker_of cb n
unfolding apply allow record_success record_failure state_of
apply_isolated (allow_at now) cb m n h = simp (breaker_of-write, h)
apply_isolated success cb m n h = simp (breaker_of-write, h)
apply_isolated (failure_at now) cb m n h = simp (breaker_of-write, h)
apply_isolated look cb m n h = simp (breaker_of-write, h)

-- What each method makes of a model's own breaker.
unfoldable pub apply_one : Method → ℕ → ℕ → ModelBreaker → ModelBreaker
apply_one (allow_at now) threshold timeout b = (allow_one timeout now b b.state).1
apply_one success threshold timeout b = record b { state = closed; consecutive_failures = 0 }
apply_one (failure_at now) threshold timeout b = fail_one threshold now b
apply_one look threshold timeout b = b

pub breaker_of-apply :
    (f : Method) (cb : CircuitBreaker) (m : String)
    → breaker_of (apply f cb m) m
      ≡ apply_one f cb.failure_threshold cb.reset_timeout (breaker_of cb m)
unfolding apply apply_one allow record_success record_failure state_of
breaker_of-apply (allow_at now) cb m = simp (breaker_of-write, ==_refl m)
breaker_of-apply success cb m = simp (breaker_of-write, ==_refl m)
breaker_of-apply (failure_at now) cb m = simp (breaker_of-write, ==_refl m)
breaker_of-apply look cb m = simp (breaker_of-write, ==_refl m)

answer_one : Method → ℕ → ModelBreaker → Answer
answer_one (allow_at now) timeout b = proceeds (allow_one timeout now b b.state).0
answer_one success timeout b = nothing
answer_one (failure_at now) timeout b = nothing
answer_one look timeout b = shows b.state

answer-answer_one :
    (f : Method) (cb : CircuitBreaker) (m : String)
    → answer f cb m ≡ answer_one f cb.reset_timeout (breaker_of cb m)
unfolding answer answer_one allow state_of
answer-answer_one (allow_at now) cb m = refl
answer-answer_one success cb m = refl
answer-answer_one (failure_at now) cb m = refl
answer-answer_one look cb m = refl

-- The transitions of the documented states, at a threshold and a timeout: a call of a method on a
-- model's breaker, what the call returns, and the breaker after it. Nothing limits the calls that
-- pass a half-open breaker.
pub data Transition (threshold timeout : ℕ)
    : ModelBreaker → Method → Answer → ModelBreaker → Type 0 where
  -- A breaker that is not open passes calls; a closed one counts failures below the threshold.
  pass :
      (b : ModelBreaker) (now : ℕ)
      → b.state ≢ open_
      → Transition threshold timeout b (allow_at now) (proceeds true) b
  count :
      (b : ModelBreaker) (now : ℕ)
      → b.state ≢ half_open
      → b.consecutive_failures + 1 < threshold
      → Transition threshold timeout b
          (failure_at now)
          nothing
          (record b { consecutive_failures = b.consecutive_failures + 1 })
  -- It opens at the threshold, and a failed trial opens it again.
  trip :
      (b : ModelBreaker) (now : ℕ)
      → (b.state ≡ half_open) ⊎ (threshold ≤ b.consecutive_failures + 1)
      → Transition threshold timeout b (failure_at now) nothing (record {
        state = open_;
        consecutive_failures = b.consecutive_failures + 1;
        opened_at = now;
      })
  -- An open breaker rejects until the timeout, and then lets a trial through.
  reject :
      (b : ModelBreaker) (now : ℕ)
      → b.state ≡ open_
      → now < b.opened_at + timeout
      → Transition threshold timeout b (allow_at now) (proceeds false) b
  try :
      (b : ModelBreaker) (now : ℕ)
      → b.state ≡ open_
      → b.opened_at + timeout ≤ now
      → Transition threshold timeout b
          (allow_at now)
          (proceeds true)
          (record b { state = half_open })
  reset :
      (b : ModelBreaker)
      → Transition threshold timeout b success nothing
          (record b { state = closed; consecutive_failures = 0 })
  peek : (b : ModelBreaker) → Transition threshold timeout b look (shows b.state) b

Transition-allow_one :
    (threshold timeout now : ℕ) (b : ModelBreaker) (s : BreakerState)
    → b.state ≡ s
    → Transition threshold timeout b
        (allow_at now)
        (proceeds (allow_one timeout now b s).0)
        (allow_one timeout now b s).1
unfolding allow_one
Transition-allow_one threshold timeout now b closed e = pass b now (λ o. cc)
Transition-allow_one threshold timeout now b half_open e = pass b now (λ o. cc)
Transition-allow_one threshold timeout now b open_ e =
    elim (Bool-cases (leb (b.opened_at + timeout) now)) [
      | inl late ↦ rw late (try b now e (ground (arith, late)))
      | inr early ↦ rw early (reject b now e (ground (arith, early)))
    ]

Transition-fail_one :
    (threshold timeout now : ℕ) (b : ModelBreaker)
    → Transition threshold timeout b (failure_at now) nothing (fail_one threshold now b)
unfolding fail_one
Transition-fail_one threshold timeout now b =
    elim (Bool-cases (is_half_open b.state || leb threshold (b.consecutive_failures + 1))) [
      | inl trips ↦ simp trips (trip b now (ground (arith, trips)))
      | inr counts ↦ simp counts (count b now (ground (arith, counts)) (ground (arith, counts)))
    ]

Transition-apply_one :
    (threshold timeout : ℕ) (f : Method) (b : ModelBreaker)
    → Transition threshold timeout b f (answer_one f timeout b) (apply_one f threshold timeout b)
unfolding apply_one answer_one
Transition-apply_one threshold timeout (allow_at now) b =
    Transition-allow_one threshold timeout now b b.state refl
Transition-apply_one threshold timeout success b = reset b
Transition-apply_one threshold timeout (failure_at now) b =
    Transition-fail_one threshold timeout now b
Transition-apply_one threshold timeout look b = peek b

apply_one_only :
    {threshold timeout : ℕ} {f : Method} {b c : ModelBreaker} {a : Answer}
    → Transition threshold timeout b f a c
    → (a ≡ answer_one f timeout b) × (c ≡ apply_one f threshold timeout b)
unfolding apply_one answer_one allow_one fail_one
apply_one_only (pass b now h) = (ground (arith, h), ground (arith, h))
apply_one_only (count b now h k) = (refl, ground (arith, h, k))
apply_one_only (trip b now h) = (refl, ground (arith, h))
apply_one_only (reject b now h k) = (ground (arith, h, k), ground (arith, h, k))
apply_one_only (try b now h k) = (ground (arith, h, k), ground (arith, h, k))
apply_one_only (reset b) = (refl, refl)
apply_one_only (peek b) = (refl, refl)

-- Every method runs exactly the transitions of the state machine that `Transition` describes: what a
-- call returns and what it makes of the model's breaker is a transition, and each transition is what
-- the call returns and makes of the breaker.
pub apply-Transition :
    (f : Method) (cb : CircuitBreaker) (m : String) (a : Answer) (c : ModelBreaker)
    → Transition cb.failure_threshold cb.reset_timeout (breaker_of cb m) f a c
      ↔ ((a ≡ answer f cb m) × (c ≡ breaker_of (apply f cb m) m))
apply-Transition f cb m a c =
    let same = breaker_of-apply f cb m in
    let said = answer-answer_one f cb m in
    (
      λ t. let (e, k) = apply_one_only t in (e ∙ sym said, k ∙ sym same),
      λ e.
          rw (e.0, e.1, said, same)
            (Transition-apply_one cb.failure_threshold cb.reset_timeout f (breaker_of cb m)),
    )
