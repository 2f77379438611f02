-- ===== src/Examples/Inference.antt =====
-- The Bedrock client and a streamed answer at concrete services.
use bedrock_gateway_platform.Base.{
  ℕ, zero, suc, ◌≡◌, ◌++◌, refl, Bool, true, none, some, [], ◌∷◌, ok, raise, leb, string_eq, nat_eq,
}
use bedrock_gateway_platform.Base.Int.{pos}
use bedrock_gateway_platform.Inference.{ConverseArguments, Chunks}
use bedrock_gateway_platform.Inference.Bedrock.{
  BotoClient, content_block_delta, message_stop, metadata, extract_error_code, is_retryable,
  try_again, converse,
}
use bedrock_gateway_platform.Inference.Bedrock.Retries.{Outcome, converse-Outcome}
use bedrock_gateway_platform.Inference.BedrockStream.{chunks_of, open_chunks}
use bedrock_gateway_platform.Routing.Breaker.{CircuitBreaker}
use bedrock_gateway_platform.Streaming.{delta, summary, stream_chat_response, read_chunks, finish}
use bedrock_gateway_platform.Streaming.Events.{
  received, interrupted, deltas, last_final, closing, stream_chat_response_lem,
}

abbrev throttled_once : BotoClient
throttled_once = record {
  State = ℕ;
  converse = λ n request. elim n [
    | zero ↦
        (raise (record { message = "slow down"; response = some (some "ThrottlingException") }), 1)
    | suc m ↦ (
      ok (record {
        content = some "hel" ∷ none ∷ some "lo" ∷ [];
        input_tokens = some 3;
        output_tokens = none;
        stop_reason = some "end_turn";
      }),
      suc (suc m),
    )
  ];
  converse_stream = λ n request. (ok (record { events = []; failure = none }), suc n);
}

abbrev no_messages : ConverseArguments
no_messages = record { messages = []; max_tokens = 64; temperature = 0 }

second_try : converse throttled_once 25 (λ n. 80) (pos 2) "haiku" no_messages 0 ≡ (
  ok (record {
    text = "hello";
    input_tokens = 3;
    output_tokens = 0;
    stop_reason = some "end_turn";
    latency_ms = 80;
    retry_count = 1;
  }),
  record { service = 2; pauses = 25 ∷ [] },
)
unfolding converse try_again is_retryable extract_error_code
second_try = refl

converse-Outcome_example :
    Outcome throttled_once 25
      (λ n. 80)
      2
      (converse throttled_once 25 (λ n. 80) (pos 2) "haiku" no_messages 0)
converse-Outcome_example =
    converse-Outcome throttled_once 25 (λ n. 80) (pos 2) "haiku" no_messages 0

abbrev two_chunks : Chunks
two_chunks = open_chunks (
    ok (record {
      events =
          content_block_delta (some "he")
          ∷ content_block_delta none
          ∷ content_block_delta (some "y")
          ∷ message_stop (some "end_turn")
          ∷ metadata (some 3) (some 2)
          ∷ [];
      failure = none;
    }))

abbrev new_breakers : CircuitBreaker
new_breakers = record { failure_threshold = 2; reset_timeout = 10; breakers = [] }

abbrev gone_at_second : ℕ → Bool
gone_at_second n = leb 1 n

aborted_stream :
    stream_chat_response 9 gone_at_second "haiku" "r1" new_breakers two_chunks
    ≡ (delta "he" ∷ summary true none none none ∷ [], new_breakers)
unfolding stream_chat_response read_chunks finish open_chunks chunks_of
aborted_stream = refl

stream_chat_response_lem_example :
    let seen = received gone_at_second 0 two_chunks.yielded in
    let end =
      closing 9 "haiku" "r1" new_breakers
        (interrupted gone_at_second 0 two_chunks.yielded)
        (last_final none seen)
        two_chunks.failure in
    (stream_chat_response 9 gone_at_second "haiku" "r1" new_breakers two_chunks
      ≡ (deltas seen ++ end.0, end.1))
stream_chat_response_lem_example =
    stream_chat_response_lem 9 gone_at_second "haiku" "r1" new_breakers two_chunks
