-- ===== src/Inference/Bedrock.antt =====
-- services/gateway/inference/bedrock_client.py: `BedrockClient.converse`. The boto3 client and the
-- exceptions it raises are parameters; times are in hundredths of a millisecond. The pauses are
-- random; what is kept of each is the bound below which it is drawn.
pub mod Retries
use bedrock_gateway_platform.Base.{
  ℕ, zero, suc, ◌+◌, ◌-◌, ◌*◌, ◌^◌, String, Bool, true, false, ◌&&◌, Option, none, some, List, [],
  ◌∷◌, ◌++◌, map, Result, ok, raise, string_eq, ◌==◌, contains, if◌then◌else◌,
}
use bedrock_gateway_platform.Base.Int.{ℤ, max_zero}
use bedrock_gateway_platform.Base.Text.{f_string, decimal}
use bedrock_gateway_platform.Inference.{
  BedrockChatMessage, ConverseResult, BedrockInvocationError, ConverseArguments,
}

-- An exception: `str(exc)`, and the error code in its `response`, if it has a dict there.
pub record BotoException : Type 0 where
  pub message : String
  pub response : Option (Option String)

-- The parts of a response that are read. A content block may have a text.
pub record BotoResponse : Type 0 where
  pub content : List (Option String)
  pub input_tokens : Option ℕ
  pub output_tokens : Option ℕ
  pub stop_reason : Option String

-- The arguments of `client.converse`.
pub record BotoRequest : Type 0 where
  pub model_id : String
  pub messages : List BedrockChatMessage
  pub max_tokens : ℕ
  pub temperature : ℕ

-- An event of a stream, by the first of three keys that it has; others are ignored.
pub data StreamEvent : Type 0 where
  content_block_delta : Option String → StreamEvent
  message_stop : Option String → StreamEvent
  metadata : Option ℕ → Option ℕ → StreamEvent
  other_event : StreamEvent

-- What iterating a stream gives, and the exception that it ends with, if any.
pub record BotoStream : Type 0 where
  pub events : List StreamEvent
  pub failure : Option BotoException

pub record BotoClient : Type 1 where
  pub State : Type 0
  pub converse : State → BotoRequest → Result BotoException BotoResponse × State
  pub converse_stream : State → BotoRequest → Result BotoException BotoStream × State

abbrev pub request_of : String → ConverseArguments → BotoRequest
request_of model_id arguments = record {
  model_id = model_id;
  messages = arguments.messages;
  max_tokens = arguments.max_tokens;
  temperature = arguments.temperature;
}

abbrev pub retryable_error_codes : List String
retryable_error_codes =
    "ThrottlingException" ∷ "ServiceUnavailableException" ∷ "ModelTimeoutException"
    ∷ "InternalServerException" ∷ []

abbrev pub code_in : Option (Option String) → Option String
code_in none = none
code_in (some code) = code

-- _extract_error_code
unfoldable pub extract_error_code : BotoException → Option String
extract_error_code exc = code_in exc.response

-- error_code in _RETRYABLE_ERROR_CODES
unfoldable pub is_retryable : Option String → Bool
is_retryable none = false
is_retryable (some code) = contains code retryable_error_codes

-- error_code or "UPSTREAM_ERROR"
abbrev pub code_or : Option String → String
code_or none = "UPSTREAM_ERROR"
code_or (some code) = if code == "" then "UPSTREAM_ERROR" else code

-- "".join(block.get("text", "") for block in content)
abbrev pub text_or_empty : Option String → String
text_or_empty none = ""
text_or_empty (some text) = text

abbrev pub or_zero : Option ℕ → ℕ
or_zero none = 0
or_zero (some n) = n

abbrev pub result_of : ℕ → ℕ → BotoResponse → ConverseResult
result_of latency attempt response = record {
  text = f_string (map text_or_empty response.content);
  input_tokens = or_zero response.input_tokens;
  output_tokens = or_zero response.output_tokens;
  stop_reason = response.stop_reason;
  latency_ms = latency;
  retry_count = attempt;
}

-- The error that is raised after so many attempts.
abbrev pub failed_after : ℕ → BotoException → BedrockInvocationError
failed_after attempts exc = record {
  message =
      f_string (
        "Bedrock invocation failed after " ∷ decimal attempts ∷ " attempt(s): " ∷ exc.message ∷ []);
  code = code_or (extract_error_code exc);
  retryable = is_retryable (extract_error_code exc);
}

-- `latency n` is the time from the start to the answer of the n-th retry.
module _ (client : BotoClient) (base_backoff : ℕ) (latency : ℕ → ℕ) where
  -- The state of the service, and the bounds of the pauses so far, in order.
  pub record Calling : Type 0 where
    pub service : client.State
    pub pauses : List ℕ

  abbrev pub pause : ℕ → Calling → Calling
  pause attempt w = record w { pauses = w.pauses ++ (base_backoff * 2 ^ (attempt - 1)) ∷ [] }

  -- One round of the loop: a response is returned; an exception is raised again if it is not
  -- retryable, and otherwise it is up to the rounds that are left.
  abbrev pub round :
      ℕ
      → Result BotoException BotoResponse × client.State
      → Calling
      → (BotoException → Calling → Result BedrockInvocationError ConverseResult × Calling)
      → Result BedrockInvocationError ConverseResult × Calling
  round attempt (ok response, s) w rest =
      (ok (result_of (latency attempt) attempt response), record w { service = s })
  round attempt (raise exc, s) w rest = elim (is_retryable (extract_error_code exc)) [
    | true ↦ rest exc (record w { service = s })
    | false ↦ (raise (failed_after (attempt + 1) exc), record w { service = s })
  ]

  -- `attempt` calls failed so far, `left` retries are left.
  unfoldable pub try_again :
      BotoRequest → ℕ → ℕ → Calling → Result BedrockInvocationError ConverseResult × Calling
  try_again request zero attempt w =
      round attempt (client.converse w.service request) w
        λ exc w'. (raise (failed_after (attempt + 1) exc), w')
  try_again request (suc left) attempt w =
      round attempt (client.converse w.service request) w
        λ exc w'. try_again request left (attempt + 1) (pause (attempt + 1) w')

  -- The loop goes on while `attempt <= max_retries`.
  unfoldable pub converse :
      ℤ
      → String
      → ConverseArguments
      → client.State
      → Result BedrockInvocationError ConverseResult × Calling
  converse max_retries model_id arguments s =
      try_again (request_of model_id arguments) (max_zero max_retries) 0
        (record { service = s; pauses = [] })
