-- ===== src/Examples/Chats.antt =====
-- Chat requests to the example gateway.
use bedrock_gateway_platform.Base.{true, ◌∷◌, [], ◌≡◌, refl, false, none, some, ok, string_eq}
use bedrock_gateway_platform.Dict
use bedrock_gateway_platform.Policy.Models.{TenantPolicy}
use bedrock_gateway_platform.Policy.Store
use bedrock_gateway_platform.Policy.Snapshots
use bedrock_gateway_platform.Policy.Limiter
use bedrock_gateway_platform.Routing.Breaker
use bedrock_gateway_platform.Routing.Router.{
  candidates, fallbacks_for, without_primary, try_candidates, attempt, converse,
}
use bedrock_gateway_platform.Guardrails.FailClosed.{run_guardrail_check}
use bedrock_gateway_platform.Auth.Identity.{Identity, identity_from_claims, has_role}
use bedrock_gateway_platform.Auth.Rbac.{require_role}
use bedrock_gateway_platform.Responses
use bedrock_gateway_platform.Pipeline.Authenticate.{authenticate, authenticate_jwt, authorize}
use bedrock_gateway_platform.Pipeline.Admission.{
  resolve_policy, enforce_kill_switch, enforce_rate_limit, effective_limit, enforce_model_allowlist,
}
use bedrock_gateway_platform.Pipeline.Guardrail.{
  check_input_guardrail, check_output_guardrail, run_guardrail,
}
use bedrock_gateway_platform.Api.Handler.{◌>>=◌}
use bedrock_gateway_platform.Api.Schemas.{model_validate, ChatResponse}
use bedrock_gateway_platform.Api.Gateway.{Gateway, completed}
use bedrock_gateway_platform.Api.Answers.{combined_text}
use bedrock_gateway_platform.Api.Chat.{
  identify, find_policy, limit_rate, read_body, cache_key, read_cache, capture_if, route,
  write_cache, answer_routed, complete, handle, chat,
}
use bedrock_gateway_platform.Api.Chat.Gates.{Gated, chat-Gated}
use bedrock_gateway_platform.Pipeline.Guards.{Cleared}
use bedrock_gateway_platform.Api.Chat.{cache_key}
use bedrock_gateway_platform.Api.Chat.Outputs.{chat-Cleared}
use bedrock_gateway_platform.Responses.Keys.{cache_payload}
use bedrock_gateway_platform.Api.Chat.Hits.{chat-Hit}
use bedrock_gateway_platform.Api.Chat.Hits.Entries.{Hit}
use bedrock_gateway_platform.Api.Chat.{answer_cached}
use bedrock_gateway_platform.Examples.World.{allow_all, services, readings, gateway, question}

-- The request makes one call.
one_call : (chat services readings question gateway).1.client_state ≡ 1
unfolding chat handle identify authenticate authenticate_jwt identity_from_claims authorize
    require_role has_role find_policy resolve_policy Snapshots.get Snapshots.probe Snapshots.fill
    Store.get Dict.get Dict.put enforce_kill_switch limit_rate enforce_rate_limit effective_limit
    Limiter.allow Limiter.refill Limiter.take_token read_body model_validate enforce_model_allowlist
    check_input_guardrail check_output_guardrail run_guardrail run_guardrail_check combined_text
    complete cache_key read_cache Responses.get route converse candidates fallbacks_for
    without_primary try_candidates attempt Breaker.allow Breaker.allow_one Breaker.breaker_of
    Breaker.write Breaker.record_success answer_routed write_cache capture_if ◌>>=◌
one_call = refl

chat-Gated_example : Gated services readings question gateway
chat-Gated_example = chat-Gated services readings question gateway (λ h. cc (one_call, h))

abbrev greeting : ChatResponse
greeting = record {
  request_id = "r1";
  model = "claude";
  output = "hello";
  stop_reason = none;
  input_tokens = 3;
  output_tokens = 2;
  latency_ms = 100;
  cache_hit = false;
  fallback = false;
}

greeted : (chat services readings question gateway).0 ≡ completed greeting
unfolding chat handle identify authenticate authenticate_jwt identity_from_claims authorize
    require_role has_role find_policy resolve_policy Snapshots.get Snapshots.probe Snapshots.fill
    Store.get Dict.get Dict.put enforce_kill_switch limit_rate enforce_rate_limit effective_limit
    Limiter.allow Limiter.refill Limiter.take_token read_body model_validate enforce_model_allowlist
    check_input_guardrail check_output_guardrail run_guardrail run_guardrail_check combined_text
    complete cache_key read_cache Responses.get route converse candidates fallbacks_for
    without_primary try_candidates attempt Breaker.allow Breaker.allow_one Breaker.breaker_of
    Breaker.write Breaker.record_success answer_routed write_cache capture_if ◌>>=◌
greeted = refl

chat-Cleared_example :
    (i : Identity) × (p : TenantPolicy) × (authenticate services.token_verifier
        services.iam_tenant_resolver
        (some "Bearer t")
        none
        none
      ≡ ok i)
    × ((resolve_policy 1 2 gateway.policy_store gateway.policy_cache i).0 ≡ ok p)
    × Cleared p (ok allow_all)
chat-Cleared_example = chat-Cleared services readings question gateway greeting greeted refl

-- The gateway with an answer to the question in its cache.
abbrev warm_gateway : Gateway services
warm_gateway = record gateway {
  response_cache = record {
    ttl = 10;
    max_entries = 4;
    entries =
        (
          "claude",
          record {
            cached_at = 1;
            value = record {
              text = "hello";
              stop_reason = none;
              input_tokens = 3;
              output_tokens = 2;
              model_id = "claude";
            };
          },
        )
        ∷ [];
  };
}

abbrev repeated : ChatResponse
repeated = record greeting { latency_ms = 0; cache_hit = true }

answered_again : (chat services readings question warm_gateway).0 ≡ completed repeated
unfolding chat handle identify authenticate authenticate_jwt identity_from_claims authorize
    require_role has_role find_policy resolve_policy Snapshots.get Snapshots.probe Snapshots.fill
    Store.get Dict.get Dict.put enforce_kill_switch limit_rate enforce_rate_limit effective_limit
    Limiter.allow Limiter.refill Limiter.take_token read_body model_validate enforce_model_allowlist
    check_input_guardrail run_guardrail run_guardrail_check combined_text complete cache_key
    read_cache Responses.get answer_cached capture_if cache_payload Dict.move_to_end Dict.pop ◌>>=◌
answered_again = refl

chat-Hit_example :
    (i : Identity) × (p : TenantPolicy) × (authenticate services.token_verifier
        services.iam_tenant_resolver
        (some "Bearer t")
        none
        none
      ≡ ok i)
    × ((resolve_policy 1 2 warm_gateway.policy_store warm_gateway.policy_cache i).0 ≡ ok p)
    × Hit services readings question i p warm_gateway.response_cache repeated
chat-Hit_example = chat-Hit services readings question warm_gateway repeated answered_again refl
