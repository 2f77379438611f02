-- ===== src/Streaming/Events.antt =====
-- The events of a streamed answer of streaming.py, from what the client saw of the chunks.
use bedrock_gateway_platform.Base.{
  ℕ, suc, ◌≡◌, refl, inl, inr, String, Bool, true, false, ◌||◌, Option, none, some, List, [], ◌∷◌,
  ◌++◌, string_eq, ◌==◌, if◌then◌else◌, Bool-cases,
}
use bedrock_gateway_platform.Inference.{StreamChunk, BedrockInvocationError, Chunks}
use bedrock_gateway_platform.Routing.Breaker.{CircuitBreaker, record_success, record_failure}
use bedrock_gateway_platform.Streaming.{
  SseEvent, delta, error, done, summary_of, Ending, ended, final_or, end_of, read_chunks, finish,
  stream_chat_response,
}

-- The chunks before the first call at which the client was gone.
unfoldable pub received : (ℕ → Bool) → ℕ → List StreamChunk → List StreamChunk
received disconnected n [] = []
received disconnected n (chunk ∷ chunks) =
    let rest = received disconnected (suc n) chunks in if disconnected n then [] else chunk ∷ rest

-- Whether the client was gone at one of the calls, one for each chunk.
unfoldable pub interrupted : (ℕ → Bool) → ℕ → List StreamChunk → Bool
interrupted disconnected n [] = false
interrupted disconnected n (chunk ∷ chunks) =
    disconnected n || interrupted disconnected (suc n) chunks

-- The texts of the chunks that have one.
unfoldable pub deltas : List StreamChunk → List SseEvent
deltas [] = []
deltas (chunk ∷ chunks) =
    let rest = deltas chunks in
    if chunk.text_delta == "" then rest else delta chunk.text_delta ∷ rest

-- The last chunk that is marked as final.
unfoldable pub last_final : Option StreamChunk → List StreamChunk → Option StreamChunk
last_final final [] = final
last_final final (chunk ∷ chunks) = last_final (if chunk.is_final then some chunk else final) chunks

-- The end of the answer, and what the breaker learns of it.
unfoldable pub closing :
    ℕ
    → String
    → String
    → CircuitBreaker
    → Bool
    → Option StreamChunk
    → Option BedrockInvocationError
    → List SseEvent × CircuitBreaker
closing now model_id request_id breaker true final failure = (summary_of true final ∷ [], breaker)
closing now model_id request_id breaker false final none =
    (summary_of false final ∷ [], record_success breaker model_id)
closing now model_id request_id breaker false final (some exc) =
    (error exc.message request_id ∷ done ∷ [], record_failure now breaker model_id)

abbrev ending_of : Bool → Option StreamChunk → Option BedrockInvocationError → Ending
ending_of true final failure = ended true final
ending_of false final failure = end_of failure final

read_chunks_lem :
    (disconnected : ℕ → Bool) (n : ℕ) (final : Option StreamChunk) (chunks : List StreamChunk)
    (failure : Option BedrockInvocationError)
    → read_chunks disconnected n final chunks failure ≡ (
      deltas (received disconnected n chunks),
      ending_of
          (interrupted disconnected n chunks)
          (last_final final (received disconnected n chunks))
          failure,
    )
unfolding read_chunks received interrupted deltas last_final
read_chunks_lem disconnected n final [] failure = refl
read_chunks_lem disconnected n final (chunk ∷ chunks) failure =
    let ih = read_chunks_lem disconnected (suc n) (final_or chunk final) chunks failure in
    elim (Bool-cases (disconnected n)) [
      | inl gone ↦ rw (gone, read_chunks) refl
      | inr there ↦ elim (Bool-cases (chunk.text_delta == "")) [
        | inl empty ↦ rw (there, read_chunks, empty, ih) refl
        | inr full ↦ rw (there, read_chunks, full, ih) refl
      ]
    ]

finish-ending_of :
    (now : ℕ) (model_id request_id : String) (breaker : CircuitBreaker) (gone : Bool)
    (final : Option StreamChunk) (failure : Option BedrockInvocationError)
    → finish now model_id request_id breaker (ending_of gone final failure)
      ≡ closing now model_id request_id breaker gone final failure
unfolding finish closing
finish-ending_of now model_id request_id breaker true final failure = refl
finish-ending_of now model_id request_id breaker false final none = refl
finish-ending_of now model_id request_id breaker false final (some exc) = refl

-- A streamed answer sends the texts of the chunks that the client was there to receive, in order, and
-- then: if the client was gone at some chunk, the summary marked as aborted, and the breaker learns
-- nothing; else after an exception the error and "done", and the breaker counts a failure; else the
-- summary, and the breaker counts a success.
pub stream_chat_response_lem :
    (now : ℕ) (disconnected : ℕ → Bool) (model_id request_id : String) (breaker : CircuitBreaker)
    (chunks : Chunks)
    → let seen = received disconnected 0 chunks.yielded in
      let end =
        closing now model_id request_id breaker
          (interrupted disconnected 0 chunks.yielded)
          (last_final none seen)
          chunks.failure in
      (stream_chat_response now disconnected model_id request_id breaker chunks
        ≡ (deltas seen ++ end.0, end.1))
unfolding stream_chat_response
stream_chat_response_lem now disconnected model_id request_id breaker chunks =
    rw (read_chunks_lem, finish-ending_of) refl
