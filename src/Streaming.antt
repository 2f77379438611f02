-- ===== src/Streaming.antt =====
-- services/gateway/streaming.py: `stream_chat_response`. The generator gives its events in order;
-- `disconnected n` is what the n-th call of `is_disconnected` answers.
pub mod Events
pub mod Lines
use bedrock_gateway_platform.Base.{
  ℕ, suc, String, Bool, true, false, Option, none, some, List, [], ◌∷◌, ◌++◌, string_eq, ◌==◌,
  if◌then◌else◌,
}
use bedrock_gateway_platform.Inference.{StreamChunk, BedrockInvocationError, Chunks}
use bedrock_gateway_platform.Routing.Breaker
use bedrock_gateway_platform.Routing.Breaker.{CircuitBreaker}

-- The data of a server-sent event: a piece of text, an error, the event "done" without data, or the
-- summary at the end: aborted, stop reason, tokens in and out.
pub data SseEvent : Type 0 where
  delta : String → SseEvent
  error : String → String → SseEvent
  done : SseEvent
  summary : Bool → Option String → Option ℕ → Option ℕ → SseEvent

-- How the loop over the chunks ends: by an exception, or with the aborted flag and the final chunk.
pub data Ending : Type 0 where
  failed : BedrockInvocationError → Ending
  ended : Bool → Option StreamChunk → Ending

abbrev pub delta_events : StreamChunk → List SseEvent
delta_events chunk = if chunk.text_delta == "" then [] else delta chunk.text_delta ∷ []

abbrev pub final_or : StreamChunk → Option StreamChunk → Option StreamChunk
final_or chunk final = if chunk.is_final then some chunk else final

abbrev pub end_of : Option BedrockInvocationError → Option StreamChunk → Ending
end_of none final = ended false final
end_of (some exc) final = failed exc

unfoldable pub read_chunks :
    (ℕ → Bool)
    → ℕ
    → Option StreamChunk
    → List StreamChunk
    → Option BedrockInvocationError
    → List SseEvent × Ending
read_chunks disconnected n final [] failure = ([], end_of failure final)
read_chunks disconnected n final (chunk ∷ chunks) failure =
    let (events, ending) = read_chunks disconnected (suc n) (final_or chunk final) chunks failure in
    elim (disconnected n) [
      | true ↦ ([], ended true final)
      | false ↦ (delta_events chunk ++ events, ending)
    ]

abbrev pub summary_of : Bool → Option StreamChunk → SseEvent
summary_of aborted none = summary aborted none none none
summary_of aborted (some chunk) =
    summary aborted chunk.stop_reason chunk.input_tokens chunk.output_tokens

-- What follows the loop. `now` is the clock at a failure.
unfoldable pub finish :
    ℕ → String → String → CircuitBreaker → Ending → List SseEvent × CircuitBreaker
finish now model_id request_id breaker (failed exc) =
    (error exc.message request_id ∷ done ∷ [], Breaker.record_failure now breaker model_id)
finish now model_id request_id breaker (ended true final) = (summary_of true final ∷ [], breaker)
finish now model_id request_id breaker (ended false final) =
    (summary_of false final ∷ [], Breaker.record_success breaker model_id)

unfoldable pub stream_chat_response :
    ℕ → (ℕ → Bool) → String → String → CircuitBreaker → Chunks → List SseEvent × CircuitBreaker
stream_chat_response now disconnected model_id request_id breaker chunks =
    let (events, ending) = read_chunks disconnected 0 none chunks.yielded chunks.failure in
    let (last, breaker') = finish now model_id request_id breaker ending in
    (events ++ last, breaker')
