-- ===== src/Policy/Limiter/Rate.antt =====
-- The rate that the limiter enforces over a run of calls by many tenants.
pub mod Budget
use native.Mathlib.Nat.{mul_comm, mul-le-mul_right}
use bedrock_gateway_platform.Base.{
  ℕ, ◌+◌, ◌-◌, ◌*◌, ◌≤◌, ◌≡◌, String, true, List, [], ◌∷◌, string_eq, ◌==◌, ==_iff, ==_refl, ◌&&◌,
  if◌then◌else◌, arith, Bool-cases,
}
use bedrock_gateway_platform.Base.Int.{ℤ, max_zero}
use bedrock_gateway_platform.Dict
use bedrock_gateway_platform.Policy.Limiter.{
  TokenBucketRateLimiter, token, minute, take_token, allow,
}
use bedrock_gateway_platform.Policy.Limiter.Calls.{get-allow, allow-take_token}
use Budget.{budget, NotAhead, call_budget, call_NotAhead, budget_bound}

pub record Call : Type 0 where
  pub now : ℕ
  pub tenant_id : String
  pub rpm_limit : ℤ

-- How many calls of the tenant a run admits.
unfoldable pub admitted : String → TokenBucketRateLimiter → List Call → ℕ
admitted t buckets [] = 0
admitted t buckets (c ∷ calls) =
    let (allowed, next) = allow c.now buckets c.tenant_id c.rpm_limit in
    (if (c.tenant_id == t) && allowed then 1 else 0) + admitted t next calls

-- The clock runs from `start` to `finish` and never back, and the tenant's limit stays the same.
abbrev pub Steady : String → ℤ → ℕ → ℕ → List Call → Type 0
Steady t rpm start finish [] = start ≤ finish
Steady t rpm start finish (c ∷ calls) =
    (start ≤ c.now)
    × ((c.tenant_id == t) ≡ true → c.rpm_limit ≡ rpm)
    × Steady t rpm c.now finish calls

Steady-le :
    (t : String) (rpm : ℤ) (start finish : ℕ) (calls : List Call)
    → Steady t rpm start finish calls
    → start ≤ finish
Steady-le t rpm start finish [] h = h
Steady-le t rpm start finish (c ∷ calls) h = omega (arith, Steady-le t rpm c.now finish calls h.2)

admitted-budget :
    (t : String) (rpm : ℤ) (start finish : ℕ) (buckets : TokenBucketRateLimiter) (calls : List Call)
    → NotAhead start (Dict.get t buckets)
    → Steady t rpm start finish calls
    → admitted t buckets calls * token ≤ budget (max_zero rpm) start finish (Dict.get t buckets)
unfolding admitted
admitted-budget t rpm start finish buckets [] a h = omega arith
admitted-budget t rpm start finish buckets (c ∷ calls) a (h, same, rest) =
    call_budget t c.tenant_id rpm c.rpm_limit start c.now finish (admitted t next calls) buckets a h
      (Steady-le t rpm c.now finish calls rest) same
      (admitted-budget t rpm c.now finish next calls
        (call_NotAhead t c.tenant_id c.rpm_limit start c.now buckets a h) rest)
  where
    next : TokenBucketRateLimiter
    next = (allow c.now buckets c.tenant_id c.rpm_limit).1

-- From any state in which the tenant's last refill lies no later than `start`, over any interleaving of
-- calls by all tenants whose times run from `start` to `finish` and never back: a tenant with an
-- unchanged limit gets at most its limit at once, and beyond that its limit for each minute of the
-- window. (A minute is also the number of units in a token.)
pub admitted_rate :
    (t : String) (rpm : ℤ) (start finish : ℕ) (buckets : TokenBucketRateLimiter) (calls : List Call)
    → NotAhead start (Dict.get t buckets)
    → Steady t rpm start finish calls
    → admitted t buckets calls * minute ≤ max_zero rpm * (minute + (finish - start))
admitted_rate t rpm start finish buckets calls a h =
    let spent = admitted-budget t rpm start finish buckets calls a h in
    let most = budget_bound (max_zero rpm) start finish (Dict.get t buckets) in
    omega (arith, mul_comm (finish - start) (max_zero rpm))
