-- ===== src/Policy/Limiter/Rate/Budget.antt =====
-- What a bucket of policy/rate_limiter.py can give out, and how calls use it up.
use native.Mathlib.Nat.{le_refl, mul-le-mul_right}
use bedrock_gateway_platform.Base.{
  ℕ, ◌+◌, ◌-◌, ◌*◌, ◌≤◌, ◌≡◌, refl, min, String, true, Option, none, some, string_eq, ◌==◌, ==_iff,
  ==_refl, ◌&&◌, if◌then◌else◌, arith, Bool-cases, inl, inr,
}
use bedrock_gateway_platform.Base.Int.{ℤ, max_zero}
use bedrock_gateway_platform.Dict
use bedrock_gateway_platform.Policy.Limiter.{
  Bucket, TokenBucketRateLimiter, token, bucket_or_full, refill, take_token, allow,
}
use bedrock_gateway_platform.Policy.Limiter.Calls.{refilled, get-allow, allow-take_token}

-- What a bucket can still give out up to `finish`.
abbrev pub budget : ℕ → ℕ → ℕ → Option Bucket → ℕ
budget capacity start finish none = capacity * token + (finish - start) * capacity
budget capacity start finish (some b) =
    min (capacity * token + (finish - start) * capacity)
      (b.tokens + (finish - b.last_refill) * capacity)

abbrev pub NotAhead : ℕ → Option Bucket → Type 0
NotAhead start none = Unit {0}
NotAhead start (some b) = b.last_refill ≤ start

split_time :
    (a b c capacity : ℕ)
    → a ≤ b
    → b ≤ c
    → (b - a) * capacity + (c - b) * capacity ≡ (c - a) * capacity
split_time a b c capacity h k = grind arith

refill-budget :
    (capacity start now finish : ℕ) (o : Option Bucket)
    → NotAhead start o
    → start ≤ now
    → now ≤ finish
    → (refill capacity now (bucket_or_full capacity now o)).tokens + (finish - now) * capacity
      ≤ budget capacity start finish o
unfolding refill
refill-budget capacity start now finish none a h k =
    ground (arith, split_time start now finish capacity)
refill-budget capacity start now finish (some b) a h k =
    ground
      (arith, split_time b.last_refill now finish capacity, split_time start now finish capacity)

take_token_budget :
    (b : Bucket) → (if (take_token b).0 then 1 else 0) * token + (take_token b).1.tokens ≡ b.tokens
unfolding take_token
take_token_budget b = ground arith

last_refill-take_token : (b : Bucket) → (take_token b).1.last_refill ≡ b.last_refill
unfolding take_token
last_refill-take_token b = ground arith

last_refill-refilled :
    (now : ℕ) (buckets : TokenBucketRateLimiter) (t : String) (rpm : ℤ)
    → (refilled now buckets t rpm).last_refill ≡ now
unfolding refilled refill
last_refill-refilled now buckets t rpm = refl

refilled-budget :
    (now : ℕ) (buckets : TokenBucketRateLimiter) (t : String) (rpm : ℤ) (start finish : ℕ)
    → NotAhead start (Dict.get t buckets)
    → start ≤ now
    → now ≤ finish
    → (refilled now buckets t rpm).tokens + (finish - now) * max_zero rpm
      ≤ budget (max_zero rpm) start finish (Dict.get t buckets)
unfolding refilled
refilled-budget now buckets t rpm start finish =
    refill-budget (max_zero rpm) start now finish (Dict.get t buckets)

-- What a bucket gives to one call and keeps.
taken_budget :
    (b : Bucket) (capacity start now finish bound : ℕ)
    → b.last_refill ≡ now
    → b.tokens + (finish - now) * capacity ≤ bound
    → (if (take_token b).0 then 1 else 0) * token
        + budget capacity start finish (some (take_token b).1)
      ≤ bound
taken_budget b capacity start now finish bound e h =
    simp (last_refill-take_token, e) (omega (arith, take_token_budget b))

-- One call of the tenant itself: what it takes and what is left stay within the budget.
own_call :
    (now : ℕ) (buckets : TokenBucketRateLimiter) (t : String) (rpm : ℤ) (start finish : ℕ)
    → NotAhead start (Dict.get t buckets)
    → start ≤ now
    → now ≤ finish
    → (if (allow now buckets t rpm).0 then 1 else 0) * token
        + budget (max_zero rpm) now finish (Dict.get t (allow now buckets t rpm).1)
      ≤ budget (max_zero rpm) start finish (Dict.get t buckets)
own_call now buckets t rpm start finish a h k =
    simp (allow-take_token, get-allow, ==_refl t)
      (taken_budget (refilled now buckets t rpm) (max_zero rpm) now now finish _
        (last_refill-refilled now buckets t rpm)
        (refilled-budget now buckets t rpm start finish a h k))

own_NotAhead :
    (now : ℕ) (buckets : TokenBucketRateLimiter) (t : String) (rpm : ℤ)
    → NotAhead now (Dict.get t (allow now buckets t rpm).1)
own_NotAhead now buckets t rpm =
    simp (get-allow, ==_refl t, last_refill-take_token, last_refill-refilled) (omega arith)

-- Time alone adds no more to a budget than it takes from what is left of it.
budget_later :
    (capacity start now finish : ℕ) (o : Option Bucket)
    → start ≤ now
    → budget capacity now finish o ≤ budget capacity start finish o
budget_later capacity start now finish none h =
    omega (arith, mul-le-mul_right {m = finish - now} {n = finish - start} capacity (omega arith))
budget_later capacity start now finish (some b) h =
    omega (arith, mul-le-mul_right {m = finish - now} {n = finish - start} capacity (omega arith))

NotAhead-later :
    (start now : ℕ) (o : Option Bucket) → start ≤ now → NotAhead start o → NotAhead now o
NotAhead-later start now none h a = tt
NotAhead-later start now (some b) h a = omega arith

own_call_as :
    (now : ℕ) (buckets : TokenBucketRateLimiter) (t u : String) (rpm limit : ℤ) (start finish : ℕ)
    → u ≡ t
    → limit ≡ rpm
    → NotAhead start (Dict.get t buckets)
    → start ≤ now
    → now ≤ finish
    → (if (allow now buckets u limit).0 then 1 else 0) * token
        + budget (max_zero rpm) now finish (Dict.get t (allow now buckets u limit).1)
      ≤ budget (max_zero rpm) start finish (Dict.get t buckets)
own_call_as now buckets t u rpm limit start finish e f a h k =
    rw (e, f) (own_call now buckets t rpm start finish a h k)

-- One call of a run, of this tenant or of another, and the rest of the run.
pub call_budget :
    (t u : String) (rpm limit : ℤ) (start now finish rest : ℕ) (buckets : TokenBucketRateLimiter)
    → NotAhead start (Dict.get t buckets)
    → start ≤ now
    → now ≤ finish
    → ((u == t) ≡ true → limit ≡ rpm)
    → rest * token ≤ budget (max_zero rpm) now finish (Dict.get t (allow now buckets u limit).1)
    → ((if (u == t) && (allow now buckets u limit).0 then 1 else 0) + rest) * token
      ≤ budget (max_zero rpm) start finish (Dict.get t buckets)
call_budget t u rpm limit start now finish rest buckets a h k same ih = elim (Bool-cases (u == t)) [
  | inl own ↦ rw own (
      ground (
        arith,
        ih,
        own_call_as now buckets t u rpm limit start finish ((==_iff u t).0 own) (same own) a h k,
      ))
  | inr other ↦
      let later : rest * token ≤ budget (max_zero rpm) now finish (Dict.get t buckets) =
        simp (get-allow, other) at ih in
      rw other
        (ground (arith, later, budget_later (max_zero rpm) start now finish (Dict.get t buckets) h))
]

pub call_NotAhead :
    (t u : String) (limit : ℤ) (start now : ℕ) (buckets : TokenBucketRateLimiter)
    → NotAhead start (Dict.get t buckets)
    → start ≤ now
    → NotAhead now (Dict.get t (allow now buckets u limit).1)
call_NotAhead t u limit start now buckets a h = elim (Bool-cases (u == t)) [
  | inl own ↦ rw ((==_iff u t).0 own) (own_NotAhead now buckets t limit)
  | inr other ↦ simp (get-allow, other) (NotAhead-later start now (Dict.get t buckets) h a)
]

pub budget_bound :
    (capacity start finish : ℕ) (o : Option Bucket)
    → budget capacity start finish o ≤ capacity * token + (finish - start) * capacity
budget_bound capacity start finish none = le_refl _
budget_bound capacity start finish (some b) = omega arith
