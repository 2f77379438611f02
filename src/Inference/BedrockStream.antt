-- ===== src/Inference/BedrockStream.antt =====
-- services/gateway/inference/bedrock_client.py: `BedrockClient.converse_stream`, and the class as an
-- implementation of the protocol `ConverseClient`.
use bedrock_gateway_platform.Base.{
  ℕ, String, true, false, Option, none, some, List, [], ◌∷◌, Result, ok, raise, string_eq, ◌==◌,
  if◌then◌else◌,
}
use bedrock_gateway_platform.Base.Int.{ℤ}
use bedrock_gateway_platform.Base.Text.{f_string}
use bedrock_gateway_platform.Inference.{StreamChunk, BedrockInvocationError, Chunks, ConverseClient}
use bedrock_gateway_platform.Inference.Bedrock
use bedrock_gateway_platform.Inference.Bedrock.{
  BotoException, BotoStream, BotoClient, StreamEvent, content_block_delta, message_stop, metadata,
  other_event, extract_error_code, code_or, request_of,
}

abbrev pub stream_error : String → BotoException → BedrockInvocationError
stream_error text exc = record {
  message = f_string (text ∷ exc.message ∷ []);
  code = code_or (extract_error_code exc);
  retryable = false;
}

abbrev pub delta_chunk : String → StreamChunk
delta_chunk text = record {
  text_delta = text;
  is_final = false;
  stop_reason = none;
  input_tokens = none;
  output_tokens = none;
}

abbrev pub final_chunk : Option String → Option ℕ → Option ℕ → StreamChunk
final_chunk stop_reason input_tokens output_tokens = record {
  text_delta = "";
  is_final = true;
  stop_reason = stop_reason;
  input_tokens = input_tokens;
  output_tokens = output_tokens;
}

-- `if text: yield StreamChunk(text_delta=text)`
abbrev pub yield_text : Option String → Chunks → Chunks
yield_text none rest = rest
yield_text (some text) rest =
    if text == "" then rest else record rest { yielded = delta_chunk text ∷ rest.yielded }

-- The chunks of the events that are left, with what the events so far have said.
unfoldable pub chunks_of :
    Option String → Option ℕ → Option ℕ → List StreamEvent → Option BotoException → Chunks
chunks_of stop input output [] none = record {
  yielded = final_chunk stop input output ∷ [];
  failure = none;
}
chunks_of stop input output [] (some exc) = record {
  yielded = [];
  failure = some (stream_error "Bedrock stream failed mid-stream: " exc);
}
chunks_of stop input output (content_block_delta text ∷ events) end =
    yield_text text (chunks_of stop input output events end)
chunks_of stop input output (message_stop reason ∷ events) end =
    chunks_of reason input output events end
chunks_of stop input output (metadata i o ∷ events) end = chunks_of stop i o events end
chunks_of stop input output (other_event ∷ events) end = chunks_of stop input output events end

unfoldable pub open_chunks : Result BotoException BotoStream → Chunks
open_chunks (raise exc) = record {
  yielded = [];
  failure = some (stream_error "Bedrock stream invocation failed: " exc);
}
open_chunks (ok stream) = chunks_of none none none stream.events stream.failure

-- The class, with its retries and its stream.
abbrev pub bedrock_client : BotoClient → ℕ → (ℕ → ℕ) → ℤ → ConverseClient
bedrock_client client base_backoff latency max_retries = record {
  State = client.State;
  converse = λ s model_id arguments.
      let (result, w) =
        Bedrock.converse client base_backoff latency max_retries model_id arguments s in
      (result, w.service);
  converse_stream = λ s model_id arguments.
      let (opened, s') = client.converse_stream s (request_of model_id arguments) in
      (open_chunks opened, s');
}
