-- ===== src/Routing/Breaker/Trials.antt =====
-- How many calls routing/circuit_breaker.py lets through while a trial is under way.
use bedrock_gateway_platform.Base.{
  ℕ, ◌+◌, ◌≤◌, ◌≡◌, refl, ap, String, Bool, true, List, [], ◌∷◌, map, string_eq, ==_refl, arith,
}
use bedrock_gateway_platform.Routing.Breaker.{
  open_, half_open, ModelBreaker, CircuitBreaker, breaker_of, allow_one, allow, write,
}
use bedrock_gateway_platform.Routing.Breaker.Steps.{breaker_of-write}

-- The answers to calls of `allow` for one model at the given times.
unfoldable pub answers : List ℕ → CircuitBreaker → String → List Bool
answers [] cb m = []
answers (now ∷ times) cb m = let (allowed, next) = allow now cb m in allowed ∷ answers times next m

allow_one-half_open :
    (timeout now : ℕ) (b : ModelBreaker)
    → b.state ≡ half_open
    → allow_one timeout now b b.state ≡ (true, b)
unfolding allow_one
allow_one-half_open timeout now b h = ground (arith, h)

allow_one-expired :
    (timeout now : ℕ) (b : ModelBreaker)
    → b.state ≡ open_
    → b.opened_at + timeout ≤ now
    → allow_one timeout now b b.state ≡ (true, record b { state = half_open })
unfolding allow_one
allow_one-expired timeout now b h late = ground (arith, h, late)

half_open_answers :
    (times : List ℕ) (cb : CircuitBreaker) (m : String)
    → (breaker_of cb m).state ≡ half_open
    → answers times cb m ≡ map (λ _. true) times
unfolding answers allow
half_open_answers [] cb m h = refl
half_open_answers (now ∷ times) cb m h =
    let b = breaker_of cb m in
    rw (allow_one-half_open cb.reset_timeout now b h) (
      ap (◌∷◌ true)
        (half_open_answers times (write cb m b) m (simp (breaker_of-write, ==_refl m) h)))

-- An open breaker whose timeout is over lets every call through until an outcome is recorded: the
-- trial call, and all that follow it however many they are.
pub trial_unlimited :
    (first : ℕ) (times : List ℕ) (cb : CircuitBreaker) (m : String)
    → (breaker_of cb m).state ≡ open_
    → (breaker_of cb m).opened_at + cb.reset_timeout ≤ first
    → answers (first ∷ times) cb m ≡ map (λ _. true) (first ∷ times)
unfolding answers allow
trial_unlimited first times cb m h late =
    let b = breaker_of cb m in
    rw (allow_one-expired cb.reset_timeout first b h late) (
      ap (◌∷◌ true) (
        half_open_answers times (write cb m (record b { state = half_open })) m
          (simp (breaker_of-write, ==_refl m))))
