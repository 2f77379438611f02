-- ===== src/Examples/Logs.antt =====
-- A line of telemetry/logging.py, the lines of a request to the example gateway, and those of a
-- stream.
use bedrock_gateway_platform.Base.{
  ℕ, ◌≡◌, refl, String, string_eq, nat_eq, ◌==◌, Bool, false, none, some, [], ◌∷◌,
}
use bedrock_gateway_platform.Base.Int.{pos}
use bedrock_gateway_platform.Dict
use bedrock_gateway_platform.Dict.{Dict}
use bedrock_gateway_platform.Dict.Distinct.{Distinct}
use bedrock_gateway_platform.Telemetry.Logging.{
  Value, text, number, iso_ts, format, log_event, level_of,
}
use bedrock_gateway_platform.Telemetry.Logging.Order.{ArePlain, format-log_event}
use bedrock_gateway_platform.Api.Gateway.{ErrorMessage}
use bedrock_gateway_platform.Api.Chat.{chat}
use bedrock_gateway_platform.Api.Chat.Lines.{Timing, chat_lines}
use bedrock_gateway_platform.Api.Chat.Lines.Tells.{Agree}
use bedrock_gateway_platform.Api.Chat.Lines.Agree.{chat_lines-Agree}
use bedrock_gateway_platform.Examples.World.{services, readings, gateway, question}
use bedrock_gateway_platform.Inference.{StreamChunk, Chunks}
use bedrock_gateway_platform.Routing.Breaker.{CircuitBreaker}
use bedrock_gateway_platform.Streaming.{stream_chat_response}
use bedrock_gateway_platform.Streaming.Lines.{stream_log, Told, stream_log-Told}

abbrev date : ℕ → String
date seconds = "2026-01-02T03:04:05"

abbrev fields : Dict String Value
fields = ("tenant_id", text "finance") ∷ ("input_tokens", number (pos 12)) ∷ []

fields-Distinct : Distinct fields
unfolding Dict.get
fields-Distinct = (refl, (refl, tt))

fields-ArePlain : ArePlain fields
fields-ArePlain = (refl, refl, (refl, refl, tt))

format-log_event_example :
    format date
      (log_event 1007 "gateway" "error" "chat failed" (some "r1") (some "TENANT_BLOCKED") fields)
    ≡ ("ts", text (iso_ts date 1007))
      ∷ ("level", text "ERROR")
      ∷ ("logger", text "gateway")
      ∷ ("request_id", text "r1")
      ∷ ("tenant_id", text "finance")
      ∷ ("input_tokens", number (pos 12))
      ∷ ("message", text "chat failed")
      ∷ ("error", text "TENANT_BLOCKED")
      ∷ []
unfolding level_of
format-log_event_example =
    format-log_event date 1007 "gateway" "error" "chat failed" (some "r1") (some "TENANT_BLOCKED")
      fields fields-Distinct fields-ArePlain

abbrev show : ErrorMessage → String
show message = "error"

abbrev timing : Timing
timing = record { now = 1007; input_guardrail_ms = 12; output_guardrail_ms = 7; routed_ms = 90 }

chat_lines-Agree_example :
    Agree show date
      (chat services readings question gateway).0
      (chat_lines services readings show timing question gateway)
    × (chat_lines services readings show timing question gateway ≡ []
        → (chat services readings question gateway).1.client_state ≡ 0)
chat_lines-Agree_example = chat_lines-Agree services readings show date timing question gateway

abbrev chunk : String → StreamChunk
chunk piece = record {
  text_delta = piece;
  is_final = false;
  stop_reason = none;
  input_tokens = none;
  output_tokens = none;
}

-- Two pieces of text, one without, and a client that leaves before the last.
abbrev chunks : Chunks
chunks = record { yielded = chunk "hel" ∷ chunk "" ∷ chunk "lo" ∷ chunk "!" ∷ []; failure = none }

abbrev gone_at_fourth : ℕ → Bool
gone_at_fourth n = n == 3

abbrev fresh : CircuitBreaker
fresh = record { failure_threshold = 2; reset_timeout = 10; breakers = [] }

stream_log-Told_example :
    Told 0
      (stream_chat_response 5 gone_at_fourth "claude" "r1" fresh chunks).0
      (format date (stream_log 1007 90 gone_at_fourth "claude" "r1" "acme" chunks))
stream_log-Told_example =
    stream_log-Told date 1007 90 5 gone_at_fourth "claude" "r1" "acme" fresh chunks
