-- ===== src/Api/Stream.antt =====
-- services/gateway/api/routes.py: iterating the streaming response that `chat` has opened. The request
-- has been answered by then; other requests may have run in between.
use bedrock_gateway_platform.Base.{ℕ, String, Bool, List, string_eq}
use bedrock_gateway_platform.Inference.{ConverseArguments, Chunks}
use bedrock_gateway_platform.Streaming.{SseEvent, stream_chat_response}
use bedrock_gateway_platform.Api.Gateway.{Services, Gateway}

module _ (services : Services) where
  open services use {client}

  unfoldable pub router_converse_stream :
      String → ConverseArguments → Gateway services → Chunks × Gateway services
  router_converse_stream model_id arguments g =
      let (chunks, s) = client.converse_stream g.client_state model_id arguments in
      (chunks, record g { client_state = s })

  -- `now` is the clock at a failure.
  unfoldable pub iterate :
      ℕ
      → (ℕ → Bool)
      → String
      → String
      → ConverseArguments
      → Gateway services
      → List SseEvent × Gateway services
  iterate now disconnected request_id model_id arguments g =
      let (chunks, g') = router_converse_stream model_id arguments g in
      let (events, breaker) =
        stream_chat_response now disconnected model_id request_id g'.circuit_breaker chunks in
      (events, record g' { circuit_breaker = breaker })
