-- ===== src/Api/Gateway.antt =====
-- The process behind the handlers of services/gateway/api: what it is configured with (main.py), the
-- state that its requests share, and what a handler answers.
use bedrock_gateway_platform.Base.{ℕ, String, Option}
use bedrock_gateway_platform.Dict.{Dict}
use bedrock_gateway_platform.Config.Environment.{Settings}
use bedrock_gateway_platform.Policy.Store.{PolicyStore}
use bedrock_gateway_platform.Policy.Snapshots.{PolicySnapshotCache}
use bedrock_gateway_platform.Policy.Limiter.{TokenBucketRateLimiter}
use bedrock_gateway_platform.Inference.{ConverseArguments, ConverseClient}
use bedrock_gateway_platform.Routing.Breaker.{CircuitBreaker}
use bedrock_gateway_platform.Routing.Router.{RouteSet, LoopClock}
use bedrock_gateway_platform.Guardrails.Models.{GuardrailClient}
use bedrock_gateway_platform.Auth.Iam.{IamTenantResolver}
use bedrock_gateway_platform.Responses.{ResponseCache}
use bedrock_gateway_platform.Responses.Keys.{Payload}
use bedrock_gateway_platform.Captures.{DebugCaptureStore}
use bedrock_gateway_platform.Pipeline.Errors.{Message}
use bedrock_gateway_platform.Pipeline.Authenticate.{TokenVerifier}
use bedrock_gateway_platform.Api.Schemas.{RawChatRequest, Invalid, ChatResponse}

-- The collaborators of the handlers. `digest` is the SHA-256 of a payload's canonical JSON.
pub record Services : Type 1 where
  pub settings : Settings
  pub client : ConverseClient
  pub route_sets : Dict String RouteSet
  pub token_verifier : TokenVerifier
  pub iam_tenant_resolver : Option IamTenantResolver
  pub guardrail_client : GuardrailClient
  pub digest : Payload → String
  pub redact : String → String

-- The readings of the monotonic clock that one request may take.
pub record Readings : Type 0 where
  pub policy_checked : ℕ
  pub policy_stored : ℕ
  pub limited : ℕ
  pub stream_allowed : ℕ
  pub cache_read : ℕ
  pub loop : LoopClock
  pub cache_written : ℕ
  pub captured : ℕ

pub record Gateway (services : Services) : Type 0 where
  pub policy_store : PolicyStore
  pub policy_cache : PolicySnapshotCache
  pub rate_limiter : TokenBucketRateLimiter
  pub circuit_breaker : CircuitBreaker
  pub client_state : services.client.State
  pub response_cache : ResponseCache
  pub debug_captures : DebugCaptureStore

-- The headers that authenticate a caller.
pub record Headers : Type 0 where
  pub authorization : Option String
  pub principal_arn : Option String
  pub account_id : Option String

-- The body of a chat request: no JSON, JSON of wrong types, or JSON of the right types.
pub data Body : Type 0 where
  invalid_json : Body
  mistyped : Body
  typed : RawChatRequest → Body

pub record Request : Type 0 where
  pub request_id : String
  pub headers : Headers
  pub body : Body

-- The text of an error body: of a pipeline stage or written out, of a failed validation, or
-- `str(AllRoutesUnavailableError(route_set))`.
pub data ErrorMessage : Type 0 where
  stage : Message → ErrorMessage
  invalid : Invalid → ErrorMessage
  circuit_open : Option String → ErrorMessage

pub record ErrorResponse : Type 0 where
  pub status_code : ℕ
  pub code : String
  pub message : ErrorMessage
  pub request_id : String

-- A streaming response is opened with the model and the arguments of its call; the call is made when
-- the response is iterated.
pub data Response : Type 0 where
  completed : ChatResponse → Response
  streaming : String → ConverseArguments → Response
  rejected : ErrorResponse → Response
