-- ===== src/Inference.antt =====
-- services/gateway/inference/bedrock_client.py: what the gateway asks of a model client. A
-- temperature is counted in millionths, latencies in hundredths of a millisecond.
pub mod Bedrock
pub mod BedrockStream
use bedrock_gateway_platform.Base.{ℕ, String, Bool, Option, List, Result}

pub record BedrockChatMessage : Type 0 where
  pub role : String
  pub text : String

pub record ConverseResult : Type 0 where
  pub text : String
  pub input_tokens : ℕ
  pub output_tokens : ℕ
  pub stop_reason : Option String
  pub latency_ms : ℕ
  pub retry_count : ℕ

pub record StreamChunk : Type 0 where
  pub text_delta : String
  pub is_final : Bool
  pub stop_reason : Option String
  pub input_tokens : Option ℕ
  pub output_tokens : Option ℕ

pub record BedrockInvocationError : Type 0 where
  pub message : String
  pub code : String
  pub retryable : Bool

-- The keyword arguments of a call, but for the model.
pub record ConverseArguments : Type 0 where
  pub messages : List BedrockChatMessage
  pub max_tokens : ℕ
  pub temperature : ℕ

-- What an iterator of chunks yields, and the exception that it ends with, if any.
pub record Chunks : Type 0 where
  pub yielded : List StreamChunk
  pub failure : Option BedrockInvocationError

-- The protocol `ConverseClient`, with the state of the client and of the service behind it.
pub record ConverseClient : Type 1 where
  pub State : Type 0
  pub converse :
      State → String → ConverseArguments → Result BedrockInvocationError ConverseResult × State
  pub converse_stream : State → String → ConverseArguments → Chunks × State
