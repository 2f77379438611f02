-- ===== src/Policy/Limiter/Calls.antt =====
-- Tenants do not share budget, and what one call of the rate limiter does to its own bucket.
use bedrock_gateway_platform.Base.{
  ℕ, ◌-◌, ◌*◌, ◌≤◌, ◌<◌, ◌≡◌, refl, ◌∙◌, String, true, false, Option, none, some, string_eq, ◌==◌,
  if◌then◌else◌, arith,
}
use bedrock_gateway_platform.Base.Int.{ℤ, max_zero}
use bedrock_gateway_platform.Dict
use bedrock_gateway_platform.Dict.Laws.{get-put}
use bedrock_gateway_platform.Policy.Limiter.{
  Bucket, TokenBucketRateLimiter, minute, bucket_or_full, refill, take_token, allow,
}

-- The bucket of a tenant after the refill of a call at `now`.
unfoldable pub refilled : ℕ → TokenBucketRateLimiter → String → ℤ → Bucket
refilled now buckets t rpm =
    refill (max_zero rpm) now (bucket_or_full (max_zero rpm) now (Dict.get t buckets))

-- A call writes the bucket of its own tenant and no other.
pub get-allow :
    (now : ℕ) (buckets : TokenBucketRateLimiter) (t u : String) (rpm : ℤ)
    → Dict.get u (allow now buckets t rpm).1
      ≡ (if t == u then some (take_token (refilled now buckets t rpm)).1 else Dict.get u buckets)
unfolding allow refilled
get-allow now buckets t u rpm = get-put t u _ buckets

pub allow-take_token :
    (now : ℕ) (buckets : TokenBucketRateLimiter) (t : String) (rpm : ℤ)
    → (allow now buckets t rpm).0 ≡ (take_token (refilled now buckets t rpm)).0
unfolding allow refilled
allow-take_token now buckets t rpm = refl

-- A call for another tenant, at any time and with any limit, does not change the answer to a tenant.
pub allow_isolated :
    (now later : ℕ) (buckets : TokenBucketRateLimiter) (t u : String) (rpm limit : ℤ)
    → (u == t) ≡ false
    → (allow later (allow now buckets u limit).1 t rpm).0 ≡ (allow later buckets t rpm).0
unfolding refilled
allow_isolated now later buckets t u rpm limit ne = simp (allow-take_token, refilled, get-allow, ne)

-- A token is at hand after a refill that was long enough, and in a new bucket.
enough :
    (now : ℕ) (rpm : ℤ) (o : Option Bucket)
    → 0 < max_zero rpm
    → ((b : Bucket) → o ≡ some b → minute ≤ (now - b.last_refill) * max_zero rpm)
    → (take_token (refill (max_zero rpm) now (bucket_or_full (max_zero rpm) now o))).0 ≡ true
unfolding take_token refill
enough now rpm none pos waited = ground arith
enough now rpm (some b) pos waited = ground (arith, waited b refl)

-- For a positive limit, a call is admitted when the tenant's last call lies long enough back for one
-- token to flow in, and when it is the tenant's first.
pub allow_available :
    (now : ℕ) (buckets : TokenBucketRateLimiter) (t : String) (rpm : ℤ)
    → 0 < max_zero rpm
    → ((b : Bucket) → Dict.get t buckets ≡ some b → minute ≤ (now - b.last_refill) * max_zero rpm)
    → (allow now buckets t rpm).0 ≡ true
unfolding refilled
allow_available now buckets t rpm pos waited =
    allow-take_token now buckets t rpm ∙ enough now rpm (Dict.get t buckets) pos waited
