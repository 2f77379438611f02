-- ===== src/Policy/Limiter.antt =====
-- services/gateway/policy/rate_limiter.py: `TokenBucketRateLimiter`. The source computes with
-- floats; here the same quantities are whole numbers of a small unit. Time is counted in nanoseconds,
-- and tokens in such a unit that a bucket of capacity `c` tokens a minute gains `c` units a
-- nanosecond.
pub mod Calls
pub mod Rate
use bedrock_gateway_platform.Base.{
  ℕ, ◌+◌, ◌-◌, ◌*◌, min, String, Bool, true, false, Option, none, some, string_eq, leb,
  if◌then◌else◌,
}
use bedrock_gateway_platform.Base.Int.{ℤ, max_zero}
use bedrock_gateway_platform.Dict
use bedrock_gateway_platform.Dict.{Dict}

abbrev pub minute : ℕ
minute = 60000000000

-- The units in one token.
abbrev pub token : ℕ
token = minute

pub record Bucket : Type 0 where
  pub tokens : ℕ
  pub last_refill : ℕ

abbrev pub TokenBucketRateLimiter : Type 0
TokenBucketRateLimiter = Dict String Bucket

-- The bucket that `allow` starts from: a new one is full.
abbrev pub bucket_or_full : ℕ → ℕ → Option Bucket → Bucket
bucket_or_full capacity now none = record { tokens = capacity * token; last_refill = now }
bucket_or_full capacity now (some bucket) = bucket

-- max(0.0, now - last_refill) is the truncated difference.
unfoldable pub refill : ℕ → ℕ → Bucket → Bucket
refill capacity now bucket = record {
  tokens = min (capacity * token) (bucket.tokens + (now - bucket.last_refill) * capacity);
  last_refill = now;
}

unfoldable pub take_token : Bucket → Bool × Bucket
take_token bucket =
    if leb token bucket.tokens
    then (true, record bucket { tokens = bucket.tokens - token })
    else (false, bucket)

unfoldable pub allow : ℕ → TokenBucketRateLimiter → String → ℤ → Bool × TokenBucketRateLimiter
allow now buckets tenant_id rpm_limit =
    let capacity = max_zero rpm_limit in
    let (allowed, bucket) =
      take_token (refill capacity now (bucket_or_full capacity now (Dict.get tenant_id buckets))) in
    (allowed, Dict.put tenant_id bucket buckets)
