-- ===== src/Pipeline/Admission.antt =====
-- services/gateway/pipeline.py: the stages that the tenant's policy decides. A stage that keeps state
-- gives the new state beside its result.
use bedrock_gateway_platform.Base.{
  ℕ, String, Bool, true, false, not, ◌&&◌, Option, none, some, List, [], ◌∷◌, Result, ok, raise,
  string_eq, contains, if◌then◌else◌,
}
use bedrock_gateway_platform.Base.Int.{ℤ, floor_div, max_one}
use bedrock_gateway_platform.Base.Text.{f_string}
use bedrock_gateway_platform.Policy.Models.{
  value, is_blocking, is_throttled, TenantPolicy, UnknownTenantError,
}
use bedrock_gateway_platform.Policy.Store.{PolicyStore}
use bedrock_gateway_platform.Policy.Snapshots
use bedrock_gateway_platform.Policy.Snapshots.{PolicySnapshotCache}
use bedrock_gateway_platform.Policy.Limiter
use bedrock_gateway_platform.Policy.Limiter.{TokenBucketRateLimiter}
use bedrock_gateway_platform.Auth.Identity.{Identity}
use bedrock_gateway_platform.Pipeline.Errors.{PipelineError, unknown_tenant, error}

abbrev pub or_not_provisioned :
    Result UnknownTenantError TenantPolicy × PolicySnapshotCache
    → Result PipelineError TenantPolicy × PolicySnapshotCache
or_not_provisioned (ok policy, cache) = (ok policy, cache)
or_not_provisioned (raise exc, cache) = (
  raise (record {
    status_code = 403;
    code = "TENANT_NOT_PROVISIONED";
    message = unknown_tenant exc.tenant_id;
  }),
  cache,
)

unfoldable pub resolve_policy :
    ℕ
    → ℕ
    → PolicyStore
    → PolicySnapshotCache
    → Identity
    → Result PipelineError TenantPolicy × PolicySnapshotCache
resolve_policy checked stored store cache identity =
    or_not_provisioned (Snapshots.get checked stored store cache identity.tenant_id)

unfoldable pub enforce_kill_switch : TenantPolicy → Result PipelineError (Unit {0})
enforce_kill_switch policy =
    if is_blocking policy.state
    then raise (
        error 403 "TENANT_BLOCKED"
          (f_string ("tenant '" ∷ policy.tenant_id ∷ "' is " ∷ value policy.state ∷ [])))
    else ok tt

-- A throttled tenant has a fifth of its limit, and at least one request a minute.
abbrev pub throttle_factor : ℕ
throttle_factor = 5

unfoldable pub effective_limit : TenantPolicy → ℤ
effective_limit policy =
    if is_throttled policy.state
    then max_one (floor_div policy.rpm_limit throttle_factor)
    else policy.rpm_limit

abbrev pub or_exceeded :
    String
    → Bool × TokenBucketRateLimiter
    → Result PipelineError (Unit {0}) × TokenBucketRateLimiter
or_exceeded tenant_id (true, limiter) = (ok tt, limiter)
or_exceeded tenant_id (false, limiter) = (
  raise (
      error 429 "QUOTA_EXCEEDED"
        (f_string ("tenant '" ∷ tenant_id ∷ "' exceeded its rate limit" ∷ []))),
  limiter,
)

unfoldable pub enforce_rate_limit :
    ℕ
    → TokenBucketRateLimiter
    → TenantPolicy
    → Result PipelineError (Unit {0}) × TokenBucketRateLimiter
enforce_rate_limit now limiter policy =
    or_exceeded policy.tenant_id
      (Limiter.allow now limiter policy.tenant_id (effective_limit policy))

-- The first model of the allowlist, or the gateway's default where there is none.
abbrev pub first_or : List String → String → String
first_or [] default_model = default_model
first_or (m ∷ models) default_model = m

abbrev pub is_empty : List String → Bool
is_empty [] = true
is_empty (m ∷ models) = false

unfoldable pub enforce_model_allowlist :
    TenantPolicy → Option String → String → Result PipelineError String
enforce_model_allowlist policy none default_model = ok (first_or policy.models default_model)
enforce_model_allowlist policy (some requested) default_model =
    if not (is_empty policy.models) && not (contains requested policy.models)
    then raise (
        error 403 "MODEL_NOT_ALLOWED" (
          f_string (
            "model '" ∷ requested ∷ "' is not in tenant '" ∷ policy.tenant_id ∷ "' allowlist"
            ∷ [])))
    else ok requested
