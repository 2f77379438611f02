-- ===== src/Api/Chat/Lines.antt =====
-- The log lines of `POST /v1/chat` in services/gateway/api/routes.py. Durations are readings of
-- `perf_counter` and are counted in hundredths of a millisecond, costs in microdollars.

pub mod Tells
pub mod Agree
use bedrock_gateway_platform.Base.{
  ℕ, ◌+◌, String, Bool, true, false, Option, none, some, List, [], ◌∷◌, Result, ok, raise,
  string_eq,
}
use bedrock_gateway_platform.Base.Int.{pos}
use bedrock_gateway_platform.Dict.{Dict}
use bedrock_gateway_platform.Policy.Models.{TenantPolicy}
use bedrock_gateway_platform.Routing.Router.{
  RoutedResult, RouterError, invocation, all_routes_unavailable, converse,
}
use bedrock_gateway_platform.Responses.{CachedResponse}
use bedrock_gateway_platform.Auth.Identity.{Identity}
use bedrock_gateway_platform.Guardrails.Models.{GuardrailDecision}
use bedrock_gateway_platform.Pipeline.Errors.{PipelineError, plain}
use bedrock_gateway_platform.Pipeline.Authenticate.{authorize}
use bedrock_gateway_platform.Pipeline.Admission.{enforce_kill_switch, enforce_model_allowlist}
use bedrock_gateway_platform.Pipeline.Guardrail.{check_input_guardrail, check_output_guardrail}
use bedrock_gateway_platform.Telemetry.Logging.{
  Value, null, text, number, boolean, LogRecord, log_event, optional_text,
}
use bedrock_gateway_platform.Telemetry.Cost.{estimate_cost, slo_breached}
use bedrock_gateway_platform.Api.Schemas.{ChatRequest}
use bedrock_gateway_platform.Api.Gateway.{
  Services, Readings, Gateway, Request, ErrorMessage, stage, circuit_open, Response,
}
use bedrock_gateway_platform.Api.Answers.{error_status, combined_text, arguments_of}
use bedrock_gateway_platform.Api.Chat.{
  stateless, identify, find_policy, limit_rate, read_body, cache_key, read_cache,
}

-- The wall clock at the line, and what the handler measures.
pub record Timing : Type 0 where
  pub now : ℕ
  pub input_guardrail_ms : ℕ
  pub output_guardrail_ms : ℕ
  pub routed_ms : ℕ

abbrev pub count : ℕ → Value
count n = number (pos n)

-- The text of an error that is written out, and `show` of the other ones.
abbrev pub text_of : (ErrorMessage → String) → ErrorMessage → String
text_of show (stage (plain message)) = message
text_of show message = show message

-- `show` is `str` of the exceptions whose text is not written out.
module _ (show : ErrorMessage → String) (timing : Timing) (request_id : String)
    (identity : Identity) (policy : TenantPolicy) where
  abbrev pub failed_event : String → Dict String Value → LogRecord
  failed_event error fields =
      log_event timing.now "gateway.chat" "ERROR" "chat request failed" (some request_id)
        (some error) fields

  -- A guardrail that ends the request.
  unfoldable pub blocked_line : String → ℕ → PipelineError → LogRecord
  blocked_line model guardrail_latency_ms exc = failed_event (text_of show (stage exc.message)) (
      ("model", text model)
      ∷ ("status", count exc.status_code)
      ∷ ("tenant_id", text identity.tenant_id)
      ∷ ("policy_epoch", number policy.policy_epoch)
      ∷ ("guardrail_version", text policy.guardrail_policy)
      ∷ ("guardrail_action", text "BLOCK")
      ∷ ("guardrail_latency_ms", count guardrail_latency_ms)
      ∷ ("blocked_reason", text (text_of show (stage exc.message)))
      ∷ [])

  -- A model, or every route, that fails.
  unfoldable pub failed_line : String → ℕ → String → LogRecord
  failed_line model status error = failed_event error (
      ("model", text model)
      ∷ ("status", count status)
      ∷ ("tenant_id", text identity.tenant_id)
      ∷ ("policy_epoch", number policy.policy_epoch)
      ∷ ("latency_ms", count timing.routed_ms)
      ∷ [])

  abbrev pub upstream_line : String → RouterError → LogRecord
  upstream_line model (invocation exc) = failed_line model (error_status exc.code).0 exc.message
  upstream_line model (all_routes_unavailable name) =
      failed_line model 503 (text_of show (circuit_open name))

  abbrev pub completed_event : Dict String Value → LogRecord
  completed_event fields =
      log_event timing.now "gateway.chat" "INFO" "chat request completed" (some request_id) none
        fields

  unfoldable pub cached_line : CachedResponse → LogRecord
  cached_line cached = completed_event (
      ("model", text cached.model_id)
      ∷ ("tenant_id", text identity.tenant_id)
      ∷ ("policy_epoch", number policy.policy_epoch)
      ∷ ("route_set", optional_text policy.route_set)
      ∷ ("guardrail_version", text policy.guardrail_policy)
      ∷ ("guardrail_action", text "ALLOW")
      ∷ ("guardrail_latency_ms", count timing.input_guardrail_ms)
      ∷ ("blocked_reason", null)
      ∷ ("input_tokens", count cached.input_tokens)
      ∷ ("output_tokens", count cached.output_tokens)
      ∷ ("ttft_ms", null)
      ∷ ("latency_ms", count 0)
      ∷ ("retry_count", count 0)
      ∷ ("fallback", boolean false)
      ∷ ("cache_hit", boolean true)
      ∷ ("status", count 200)
      ∷ (
        "estimated_cost",
        count (estimate_cost cached.model_id cached.input_tokens cached.output_tokens none),
      )
      ∷ ("slo_breach", boolean false)
      ∷ [])

  unfoldable pub routed_line : RoutedResult → LogRecord
  routed_line routed =
      let result = routed.result in
      completed_event (
        ("model", text routed.model_id)
        ∷ ("tenant_id", text identity.tenant_id)
        ∷ ("policy_epoch", number policy.policy_epoch)
        ∷ ("route_set", optional_text policy.route_set)
        ∷ ("guardrail_version", text policy.guardrail_policy)
        ∷ ("guardrail_action", text "ALLOW")
        ∷ ("guardrail_latency_ms", count (timing.input_guardrail_ms + timing.output_guardrail_ms))
        ∷ ("blocked_reason", null)
        ∷ ("input_tokens", count result.input_tokens)
        ∷ ("output_tokens", count result.output_tokens)
        ∷ ("ttft_ms", null)
        ∷ ("latency_ms", count result.latency_ms)
        ∷ ("retry_count", count result.retry_count)
        ∷ ("fallback", boolean routed.fallback)
        ∷ ("cache_hit", boolean false)
        ∷ ("status", count 200)
        ∷ (
          "estimated_cost",
          count (estimate_cost routed.model_id result.input_tokens result.output_tokens none),
        )
        ∷ ("slo_breach", boolean (slo_breached policy result.latency_ms))
        ∷ [])

-- What follows a stage of the handler; a stage before the input guardrail that ends the request does
-- so without a line.
abbrev pub lines_after :
    {G A : Type 0} → Result Response A × G → (A → G → List LogRecord) → List LogRecord
lines_after (ok a, g) rest = rest a g
lines_after (raise response, g) rest = []

module _ (services : Services) (readings : Readings) (show : ErrorMessage → String)
    (timing : Timing) where
  open services use {settings, client, guardrail_client}

  abbrev pub after_output :
      Request
      → Identity
      → TenantPolicy
      → RoutedResult
      → Result PipelineError GuardrailDecision
      → List LogRecord
  after_output request identity policy routed (raise exc) =
      blocked_line show timing request.request_id identity policy routed.model_id
        (timing.input_guardrail_ms + timing.output_guardrail_ms) exc
      ∷ []
  after_output request identity policy routed (ok decision) =
      routed_line show timing request.request_id identity policy routed ∷ []

  abbrev pub after_route :
      Request → Identity → TenantPolicy → String → Result RouterError RoutedResult → List LogRecord
  after_route request identity policy model_id (raise exc) =
      upstream_line show timing request.request_id identity policy model_id exc ∷ []
  after_route request identity policy model_id (ok routed) =
      after_output request identity policy routed
        (check_output_guardrail guardrail_client policy routed.result.text)

  abbrev pub after_cache :
      Request
      → Identity
      → TenantPolicy
      → String
      → ChatRequest
      → Option CachedResponse
      → Gateway services
      → List LogRecord
  after_cache request identity policy model_id r (some cached) g =
      cached_line show timing request.request_id identity policy cached ∷ []
  after_cache request identity policy model_id r none g =
      after_route request identity policy model_id
        (converse client readings.loop (arguments_of r) services.route_sets model_id
          policy.route_set
          (record { breaker = g.circuit_breaker; client_state = g.client_state })).0

  -- An opened stream has a line of its own, which `stream_chat_response` writes at its end.
  abbrev pub after_stream :
      Bool
      → Request
      → Identity
      → TenantPolicy
      → String
      → ChatRequest
      → Gateway services
      → List LogRecord
  after_stream true request identity policy model_id r g = []
  after_stream false request identity policy model_id r g =
      lines_after
        (read_cache services readings (cache_key services readings identity policy model_id r) g)
        (after_cache request identity policy model_id r)

  abbrev pub after_input :
      Request
      → Identity
      → TenantPolicy
      → String
      → ChatRequest
      → Result PipelineError GuardrailDecision
      → Gateway services
      → List LogRecord
  after_input request identity policy model_id r (raise exc) g =
      blocked_line show timing request.request_id identity policy model_id timing.input_guardrail_ms
        exc
      ∷ []
  after_input request identity policy model_id r (ok decision) g =
      after_stream r.stream request identity policy model_id r g

  -- The lines that `chat` writes, stage by stage as in `handle`.
  unfoldable pub chat_lines : Request → Gateway services → List LogRecord
  chat_lines request g = lines_after (identify services readings request g) λ identity g1.
      lines_after
        (stateless services readings request.request_id
          (authorize identity settings.chat_required_role) g1)
        λ u g2. lines_after (find_policy services readings request identity g2) λ policy g3.
          lines_after
            (stateless services readings request.request_id (enforce_kill_switch policy) g3)
            λ u' g4. lines_after (limit_rate services readings request policy g4) λ u'' g5.
              lines_after (read_body services readings request g5) λ r g6.
                lines_after
                  (stateless services readings request.request_id
                    (enforce_model_allowlist policy r.model settings.bedrock_model_id) g6)
                  λ model_id g7.
                    after_input request identity policy model_id r
                      (check_input_guardrail guardrail_client policy (combined_text r.messages)) g7
