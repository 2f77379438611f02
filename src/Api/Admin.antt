-- ===== src/Api/Admin.antt =====
-- services/gateway/api/admin_routes.py: `PUT /v1/admin/tenants/{tenant_id}/state`.
pub mod Changes
use bedrock_gateway_platform.Base.Int.{ℤ}
use bedrock_gateway_platform.Base.{
  ℕ, String, Option, none, some, Result, ok, raise, string_eq, ◌==◌, if◌then◌else◌,
}
use bedrock_gateway_platform.Policy.Models.{
  TenantState, parse_state, TenantPolicy, UnknownTenantError,
}
use bedrock_gateway_platform.Policy.Store
use bedrock_gateway_platform.Policy.Snapshots
use bedrock_gateway_platform.Auth.Identity.{Identity}
use bedrock_gateway_platform.Pipeline.Errors.{PipelineError, plain, unknown_tenant}
use bedrock_gateway_platform.Pipeline.Authenticate.{authenticate, authorize}
use bedrock_gateway_platform.Api.Handler.{Handler, ◌>>=◌, ◌>>◌}
use bedrock_gateway_platform.Api.Gateway.{
  Services, Gateway, Headers, ErrorMessage, stage, ErrorResponse,
}

-- The body: no JSON, or the string under "state", if there is one.
pub data StateBody : Type 0 where
  invalid_json : StateBody
  json : Option String → StateBody

pub record StateRequest : Type 0 where
  pub request_id : String
  pub headers : Headers
  pub tenant_id : String
  pub body : StateBody

pub record StateChange : Type 0 where
  pub tenant_id : String
  pub state : TenantState
  pub policy_epoch : ℤ

pub data StateResponse : Type 0 where
  changed : StateChange → StateResponse
  refused : ErrorResponse → StateResponse

abbrev pub refuse : String → ℕ → String → ErrorMessage → ErrorResponse
refuse request_id status_code code message = record {
  status_code = status_code;
  code = code;
  message = message;
  request_id = request_id;
}

abbrev pub or_refuse : {A : Type 0} → String → Result PipelineError A → Result ErrorResponse A
or_refuse request_id (ok a) = ok a
or_refuse request_id (raise exc) =
    raise (refuse request_id exc.status_code exc.code (stage exc.message))

abbrev pub known_state : String → Option TenantState → Result ErrorResponse TenantState
known_state request_id (some state) = ok state
known_state request_id none = raise (
    refuse request_id 400 "INVALID_REQUEST" (
      stage (
        plain
          "'state' must be one of ['ACTIVE', 'THROTTLED', 'READ_ONLY', 'SUSPENDED', 'EMERGENCY_BLOCK']")))

abbrev pub parse_optional : Option String → Option TenantState
parse_optional none = none
parse_optional (some raw) = parse_state raw

abbrev pub read_state : String → StateBody → Result ErrorResponse TenantState
read_state request_id invalid_json =
    raise (refuse request_id 400 "INVALID_JSON" (stage (plain "request body must be valid JSON")))
read_state request_id (json raw) = known_state request_id (parse_optional raw)

abbrev pub or_not_found :
    String → Result UnknownTenantError TenantPolicy → Result ErrorResponse TenantPolicy
or_not_found request_id (ok policy) = ok policy
or_not_found request_id (raise exc) =
    raise (refuse request_id 404 "TENANT_NOT_FOUND" (stage (unknown_tenant exc.tenant_id)))

module _ (services : Services) where
  abbrev pub Admin : Type 0 → Type 0
  Admin = Handler (Gateway services) ErrorResponse

  abbrev pub stateless : {A : Type 0} → Result ErrorResponse A → Admin A
  stateless result g = (result, g)

  unfoldable pub store_change : StateRequest → TenantState → Admin TenantPolicy
  store_change request state g =
      let (result, store) = Store.set_state g.policy_store request.tenant_id state in
      (or_not_found request.request_id result, record g { policy_store = store })

  -- Push invalidation.
  unfoldable pub push_change : StateRequest → Admin (Unit {0})
  push_change request g =
      (ok tt, record g { policy_cache = Snapshots.invalidate g.policy_cache request.tenant_id })

  unfoldable pub handle : StateRequest → Admin StateChange
  handle request = do
    identity ← stateless (
        or_refuse request.request_id (
          authenticate services.token_verifier services.iam_tenant_resolver
            request.headers.authorization request.headers.principal_arn request.headers.account_id))
    stateless
        (or_refuse request.request_id (authorize identity services.settings.admin_required_role))
    state ← stateless (read_state request.request_id request.body)
    updated ← store_change request state
    push_change request
    stateless (
        ok (record {
          tenant_id = request.tenant_id;
          state = updated.state;
          policy_epoch = updated.policy_epoch;
        }))

  abbrev pub response_of : Result ErrorResponse StateChange → StateResponse
  response_of (ok change) = changed change
  response_of (raise error) = refused error

  unfoldable pub set_tenant_state :
      StateRequest → Gateway services → StateResponse × Gateway services
  set_tenant_state request g = let (result, g') = handle request g in (response_of result, g')
