-- ===== src/Api/Chat.antt =====
-- services/gateway/api/routes.py: `POST /v1/chat`. Its log lines are in Lines, its span is left out.
pub mod Gates
pub mod Hits
pub mod Keys
pub mod Lines
pub mod Outputs
use bedrock_gateway_platform.Base.{
  ℕ, String, Bool, true, false, Option, none, some, [], ◌∷◌, Result, ok, raise, string_eq, ◌==◌,
  if◌then◌else◌,
}
use bedrock_gateway_platform.Base.Text.{f_string}
use bedrock_gateway_platform.Policy.Models.{TenantPolicy}
use bedrock_gateway_platform.Routing.Breaker
use bedrock_gateway_platform.Routing.Router.{
  RoutedResult, RouterError, invocation, all_routes_unavailable, converse,
}
use bedrock_gateway_platform.Responses
use bedrock_gateway_platform.Responses.{CachedResponse}
use bedrock_gateway_platform.Responses.Keys.{cache_payload}
use bedrock_gateway_platform.Captures
use bedrock_gateway_platform.Auth.Identity.{Identity}
use bedrock_gateway_platform.Pipeline.Errors.{PipelineError, plain}
use bedrock_gateway_platform.Pipeline.Authenticate.{authenticate, authorize}
use bedrock_gateway_platform.Pipeline.Admission.{
  resolve_policy, enforce_kill_switch, enforce_rate_limit, enforce_model_allowlist,
}
use bedrock_gateway_platform.Pipeline.Guardrail.{check_input_guardrail, check_output_guardrail}
use bedrock_gateway_platform.Api.Handler.{Handler, pure, ◌>>=◌, ◌>>◌}
use bedrock_gateway_platform.Api.Schemas.{ChatRequest, Invalid, bad_types, model_validate}
use bedrock_gateway_platform.Api.Gateway.{
  Services, Readings, Gateway, Request, Body, invalid_json, mistyped, typed, stage, invalid,
  circuit_open, Response, completed, streaming,
}
use bedrock_gateway_platform.Api.Answers.{error_status, combined_text, arguments_of, fail, or_fail}

module _ (services : Services) (readings : Readings) where
  open services use {settings, client, guardrail_client}

  abbrev pub Chat : Type 0 → Type 0
  Chat = Handler (Gateway services) Response

  -- A stage that keeps no state.
  abbrev pub stateless : {A : Type 0} → String → Result PipelineError A → Chat A
  stateless request_id result g = (or_fail request_id result, g)

  unfoldable pub identify : Request → Chat Identity
  identify request = stateless request.request_id (
      authenticate services.token_verifier services.iam_tenant_resolver
        request.headers.authorization request.headers.principal_arn request.headers.account_id)

  unfoldable pub find_policy : Request → Identity → Chat TenantPolicy
  find_policy request identity g =
      let (result, cache) =
        resolve_policy readings.policy_checked readings.policy_stored g.policy_store g.policy_cache
          identity in
      (or_fail request.request_id result, record g { policy_cache = cache })

  unfoldable pub limit_rate : Request → TenantPolicy → Chat (Unit {0})
  limit_rate request policy g =
      let (result, limiter) = enforce_rate_limit readings.limited g.rate_limiter policy in
      (or_fail request.request_id result, record g { rate_limiter = limiter })

  abbrev pub validated : String → Result Invalid ChatRequest → Result Response ChatRequest
  validated request_id (ok r) = ok r
  validated request_id (raise e) = raise (fail request_id 400 "INVALID_REQUEST" (invalid e))

  abbrev pub read_typed : String → Body → Result Response ChatRequest
  read_typed request_id invalid_json =
      raise (fail request_id 400 "INVALID_JSON" (stage (plain "request body must be valid JSON")))
  read_typed request_id mistyped = validated request_id (raise bad_types)
  read_typed request_id (typed raw) = validated request_id (model_validate raw)

  unfoldable pub read_body : Request → Chat ChatRequest
  read_body request g = (read_typed request.request_id request.body, g)

  -- `if not circuit_breaker.allow(model_id): return _error(503, …)`
  unfoldable pub open_stream : Request → String → ChatRequest → Chat Response
  open_stream request model_id r g =
      let (allowed, breaker) = Breaker.allow readings.stream_allowed g.circuit_breaker model_id in
      (
        ok (
            if allowed
            then streaming model_id (arguments_of r)
            else fail request.request_id 503 "UPSTREAM_UNAVAILABLE" (
                stage (
                  plain (
                    f_string (
                      "model '" ∷ model_id ∷ "' is temporarily unavailable (circuit open)"
                      ∷ []))))),
        record g { circuit_breaker = breaker },
      )

  unfoldable pub cache_key : Identity → TenantPolicy → String → ChatRequest → String
  cache_key identity policy model_id r = services.digest (
      cache_payload identity.tenant_id identity.application_id policy model_id r.max_tokens
        r.temperature r.messages)

  unfoldable pub read_cache : String → Chat (Option CachedResponse)
  read_cache key g =
      let (found, cache) = Responses.get readings.cache_read g.response_cache key in
      (ok found, record g { response_cache = cache })

  unfoldable pub capture_if : Bool → Request → Identity → ChatRequest → String → Chat (Unit {0})
  capture_if false request identity r output g = (ok tt, g)
  capture_if true request identity r output g = (
    ok tt,
    record g {
      debug_captures =
          Captures.capture services.redact readings.captured g.debug_captures request.request_id
            identity.tenant_id (combined_text r.messages) output;
    },
  )

  -- The answer from the cache.
  unfoldable pub answer_cached :
      Request → Identity → TenantPolicy → ChatRequest → CachedResponse → Chat Response
  answer_cached request identity policy r cached = do
    capture_if policy.debug_capture_enabled request identity r cached.text
    pure (
        completed (record {
          request_id = request.request_id;
          model = cached.model_id;
          output = cached.text;
          stop_reason = cached.stop_reason;
          input_tokens = cached.input_tokens;
          output_tokens = cached.output_tokens;
          latency_ms = 0;
          cache_hit = true;
          fallback = false;
        }))

  abbrev pub or_upstream : String → Result RouterError RoutedResult → Result Response RoutedResult
  or_upstream request_id (ok routed) = ok routed
  or_upstream request_id (raise (invocation exc)) =
      let (status_code, code) = error_status exc.code in
      raise (fail request_id status_code code (stage (plain exc.message)))
  or_upstream request_id (raise (all_routes_unavailable name)) =
      raise (fail request_id 503 "ALL_ROUTES_UNAVAILABLE" (circuit_open name))

  unfoldable pub route : Request → TenantPolicy → String → ChatRequest → Chat RoutedResult
  route request policy model_id r g =
      let (result, w) =
        converse client readings.loop (arguments_of r) services.route_sets model_id policy.route_set
          (record { breaker = g.circuit_breaker; client_state = g.client_state }) in
      (
        or_upstream request.request_id result,
        record g { circuit_breaker = w.breaker; client_state = w.client_state },
      )

  unfoldable pub write_cache : String → RoutedResult → Chat (Unit {0})
  write_cache key routed g = (
    ok tt,
    record g {
      response_cache = Responses.set readings.cache_written g.response_cache key (record {
        text = routed.result.text;
        stop_reason = routed.result.stop_reason;
        input_tokens = routed.result.input_tokens;
        output_tokens = routed.result.output_tokens;
        model_id = routed.model_id;
      });
    },
  )

  -- The answer from a model.
  unfoldable pub answer_routed :
      Request → Identity → TenantPolicy → String → ChatRequest → String → Chat Response
  answer_routed request identity policy model_id r key = do
    routed ← route request policy model_id r
    stateless request.request_id (check_output_guardrail guardrail_client policy routed.result.text)
    write_cache key routed
    capture_if policy.debug_capture_enabled request identity r routed.result.text
    pure (
        completed (record {
          request_id = request.request_id;
          model = routed.model_id;
          output = routed.result.text;
          stop_reason = routed.result.stop_reason;
          input_tokens = routed.result.input_tokens;
          output_tokens = routed.result.output_tokens;
          latency_ms = routed.result.latency_ms;
          cache_hit = false;
          fallback = routed.fallback;
        }))

  abbrev pub cached_or :
      Request
      → Identity
      → TenantPolicy
      → String
      → ChatRequest
      → String
      → Option CachedResponse
      → Chat Response
  cached_or request identity policy model_id r key (some cached) =
      answer_cached request identity policy r cached
  cached_or request identity policy model_id r key none =
      answer_routed request identity policy model_id r key

  unfoldable pub complete : Request → Identity → TenantPolicy → String → ChatRequest → Chat Response
  complete request identity policy model_id r = do
    let key = cache_key identity policy model_id r
    cached ← read_cache key
    cached_or request identity policy model_id r key cached

  abbrev pub stream_or :
      Bool → Request → Identity → TenantPolicy → String → ChatRequest → Chat Response
  stream_or true request identity policy model_id r = open_stream request model_id r
  stream_or false request identity policy model_id r = complete request identity policy model_id r

  -- The handler up to its answer.
  unfoldable pub handle : Request → Chat Response
  handle request = do
    identity ← identify request
    stateless request.request_id (authorize identity settings.chat_required_role)
    policy ← find_policy request identity
    stateless request.request_id (enforce_kill_switch policy)
    limit_rate request policy
    r ← read_body request
    model_id ←
        stateless request.request_id
          (enforce_model_allowlist policy r.model settings.bedrock_model_id)
    stateless request.request_id
        (check_input_guardrail guardrail_client policy (combined_text r.messages))
    stream_or r.stream request identity policy model_id r

  abbrev pub response_of : Result Response Response → Response
  response_of (ok response) = response
  response_of (raise response) = response

  unfoldable pub chat : Request → Gateway services → Response × Gateway services
  chat request g = let (result, g') = handle request g in (response_of result, g')
