-- ===== src/Streaming/Lines.antt =====
-- The log line that `stream_chat_response` of services/gateway/streaming.py writes at its end.
use bedrock_gateway_platform.Base.{
  ℕ, suc, ◌+◌, ◌≡◌, refl, String, Bool, true, false, Option, none, some, List, [], ◌∷◌, ◌++◌,
  string_eq, ◌==◌, if◌then◌else◌, arith, Bool-cases, inl, inr,
}
use bedrock_gateway_platform.Dict
use bedrock_gateway_platform.Dict.{Dict}
use bedrock_gateway_platform.Inference.{StreamChunk, BedrockInvocationError, Chunks}
use bedrock_gateway_platform.Routing.Breaker.{CircuitBreaker}
use bedrock_gateway_platform.Telemetry.Logging.{
  Value, text, boolean, LogRecord, log_event, format, kept, update, level_of,
}
use bedrock_gateway_platform.Api.Chat.Lines.{count}
use bedrock_gateway_platform.Api.Chat.Lines.Tells.{Has}
use bedrock_gateway_platform.Streaming.{
  SseEvent, delta, error, done, summary, Ending, failed, ended, delta_events, final_or, end_of,
  read_chunks, finish, stream_chat_response,
}

-- `generated_chunks` at the end of the loop.
unfoldable pub generated_chunks : (ℕ → Bool) → ℕ → List StreamChunk → ℕ
generated_chunks disconnected n [] = 0
generated_chunks disconnected n (chunk ∷ chunks) =
    let rest = generated_chunks disconnected (suc n) chunks in
    elim (disconnected n) [ true ↦ 0 | false ↦ if chunk.text_delta == "" then rest else suc rest ]

unfoldable pub stream_line : ℕ → ℕ → String → String → String → ℕ → Ending → LogRecord
stream_line now duration_ms model_id request_id tenant_id generated (failed exc) =
    log_event now "gateway.chat.stream" "ERROR" "chat stream failed" (some request_id)
      (some exc.message) (("model", text model_id) ∷ ("tenant_id", text tenant_id) ∷ [])
stream_line now duration_ms model_id request_id tenant_id generated (ended aborted final) =
    log_event now "gateway.chat.stream" "INFO" "chat stream completed" (some request_id) none (
      ("model", text model_id)
      ∷ ("tenant_id", text tenant_id)
      ∷ ("client_disconnected", boolean aborted)
      ∷ ("generated_chunks", count generated)
      ∷ ("stream_duration_ms", count duration_ms)
      ∷ ("status", count 200)
      ∷ [])

unfoldable pub stream_log : ℕ → ℕ → (ℕ → Bool) → String → String → String → Chunks → LogRecord
stream_log now duration_ms disconnected model_id request_id tenant_id chunks =
    stream_line now duration_ms model_id request_id tenant_id
      (generated_chunks disconnected 0 chunks.yielded)
      (read_chunks disconnected 0 none chunks.yielded chunks.failure).1

-- What the line says of the events that follow `n` pieces of text: of an error with its id and message,
-- or of a summary with its flag and the number of all pieces.
abbrev pub Told : ℕ → List SseEvent → Dict String Value → Type 0
Told n (delta t ∷ events) line = Told (suc n) events line
Told n (error message request_id ∷ done ∷ []) line =
    Has line
      (("level", text "ERROR") ∷ ("request_id", text request_id) ∷ ("error", text message) ∷ [])
Told n (summary aborted stop_reason input_tokens output_tokens ∷ []) line = Has line (
    ("level", text "INFO")
    ∷ ("client_disconnected", boolean aborted)
    ∷ ("generated_chunks", count n)
    ∷ ("status", count 200)
    ∷ [])
Told n _ line = ⊥

module _ (disconnected : ℕ → Bool) (k : ℕ) (final : Option StreamChunk) (chunk : StreamChunk)
    (chunks : List StreamChunk) (failure : Option BedrockInvocationError) where
  read_chunks_stopped :
      disconnected k ≡ true
      → read_chunks disconnected k final (chunk ∷ chunks) failure ≡ ([], ended true final)
  unfolding read_chunks
  read_chunks_stopped h = rw (h, read_chunks) refl

  read_chunks_going :
      disconnected k ≡ false
      → let read = read_chunks disconnected (suc k) (final_or chunk final) chunks failure in
        read_chunks disconnected k final (chunk ∷ chunks) failure
        ≡ (delta_events chunk ++ read.0, read.1)
  unfolding read_chunks
  read_chunks_going h = rw (h, read_chunks) refl

module _ (date : ℕ → String) (now duration_ms : ℕ) (model_id request_id tenant_id : String) (at : ℕ)
    (breaker : CircuitBreaker) where
  abbrev line_of : ℕ → Ending → Dict String Value
  line_of n ending =
      format date (stream_line now duration_ms model_id request_id tenant_id n ending)

  finish-Told :
      (n : ℕ) (ending : Ending)
      → Told n (finish at model_id request_id breaker ending).0 (line_of n ending)
  unfolding finish stream_line log_event level_of format kept update Dict.get Dict.put Dict.pop
  finish-Told n (failed exc) = (refl, (refl, (refl, tt)))
  finish-Told n (ended true none) = (refl, (refl, (refl, (refl, tt))))
  finish-Told n (ended true (some x)) = (refl, (refl, (refl, (refl, tt))))
  finish-Told n (ended false none) = (refl, (refl, (refl, (refl, tt))))
  finish-Told n (ended false (some x)) = (refl, (refl, (refl, (refl, tt))))

  -- The events of the loop and of what follows it.
  abbrev sent : List SseEvent × Ending → List SseEvent
  sent (events, ending) = events ++ (finish at model_id request_id breaker ending).0

  read_chunks-Told :
      (disconnected : ℕ → Bool) (k n m : ℕ) (final : Option StreamChunk) (chunks : List StreamChunk)
      (failure : Option BedrockInvocationError)
      → n + generated_chunks disconnected k chunks ≡ m
      → let read = read_chunks disconnected k final chunks failure in
        Told n (sent read) (line_of m read.1)
  unfolding generated_chunks read_chunks
  read_chunks-Told disconnected k n m final [] failure h =
      let same : n ≡ m = omega arith in rw (← same) (finish-Told n (end_of failure final))
  read_chunks-Told disconnected k n m final (chunk ∷ chunks) failure h =
      elim (Bool-cases (disconnected k)) [
        | inl stop ↦
            let same : n ≡ m = ground (arith, h, stop) in
            rw (read_chunks_stopped disconnected k final chunk chunks failure stop, ← same)
              (finish-Told n (ended true final))
        | inr go ↦ elim (Bool-cases (chunk.text_delta == "")) [
          | inl empty ↦
              rw (read_chunks_going disconnected k final chunk chunks failure go, empty)
                (read_chunks-Told disconnected (suc k) n m (final_or chunk final) chunks failure
                  (ground (arith, h, go, empty)))
          | inr full ↦
              rw (read_chunks_going disconnected k final chunk chunks failure go, full)
                (read_chunks-Told disconnected (suc k) (suc n) m (final_or chunk final) chunks
                  failure (ground (arith, h, go, full)))
        ]
      ]

-- The log line of a stream agrees with the events that were sent. After an error event the line is an
-- error with the same message and request id; after a summary it says whether the client had
-- disconnected as the summary does, and counts exactly the pieces of text that were sent.
pub stream_log-Told :
    (date : ℕ → String) (now duration_ms at : ℕ) (disconnected : ℕ → Bool)
    (model_id request_id tenant_id : String) (breaker : CircuitBreaker) (chunks : Chunks)
    → Told 0
        (stream_chat_response at disconnected model_id request_id breaker chunks).0
        (format date (stream_log now duration_ms disconnected model_id request_id tenant_id chunks))
unfolding stream_chat_response stream_log
stream_log-Told date now duration_ms at disconnected model_id request_id tenant_id breaker chunks =
    read_chunks-Told date now duration_ms model_id request_id tenant_id at breaker disconnected 0 0
      _ none chunks.yielded chunks.failure (omega arith)
