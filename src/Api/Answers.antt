-- ===== src/Api/Answers.antt =====
-- services/gateway/api/routes.py: the pieces of an answer to
-- `POST /v1/chat`.
use bedrock_gateway_platform.Base.{
  ℕ, String, List, [], ◌∷◌, map, Result, ok, raise, string_eq, ◌==◌, if◌then◌else◌,
}
use bedrock_gateway_platform.Base.Text.{f_string}
use bedrock_gateway_platform.Inference.{BedrockChatMessage, ConverseArguments}
use bedrock_gateway_platform.Responses.Keys.{ChatMessage}
use bedrock_gateway_platform.Pipeline.Errors.{PipelineError}
use bedrock_gateway_platform.Api.Schemas.{ChatRequest}
use bedrock_gateway_platform.Api.Gateway.{ErrorMessage, stage, Response, rejected}

-- _ERROR_STATUS_MAP.get(code, _DEFAULT_ERROR_STATUS)
unfoldable pub error_status : String → ℕ × String
error_status code =
    if code == "ThrottlingException"
    then (429, "UPSTREAM_THROTTLED")
    else if code == "ServiceUnavailableException"
    then (503, "UPSTREAM_UNAVAILABLE")
    else if code == "ModelTimeoutException"
    then (504, "UPSTREAM_TIMEOUT")
    else (502, "UPSTREAM_ERROR")

-- "\n".join(m.content for m in messages)
unfoldable pub combined_text : List ChatMessage → String
combined_text [] = ""
combined_text (m ∷ []) = m.content
combined_text (m ∷ next ∷ ms) = f_string (m.content ∷ "\n" ∷ combined_text (next ∷ ms) ∷ [])

abbrev pub bedrock_messages : List ChatMessage → List BedrockChatMessage
bedrock_messages = map (λ m. record { role = m.role; text = m.content })

abbrev pub arguments_of : ChatRequest → ConverseArguments
arguments_of r = record {
  messages = bedrock_messages r.messages;
  max_tokens = r.max_tokens;
  temperature = r.temperature;
}

abbrev pub fail : String → ℕ → String → ErrorMessage → Response
fail request_id status_code code message =
    rejected (record {
      status_code = status_code;
      code = code;
      message = message;
      request_id = request_id;
    })

-- `except PipelineError as exc: return _error(exc.status_code, exc.code, str(exc), request_id)`
abbrev pub or_fail : {A : Type 0} → String → Result PipelineError A → Result Response A
or_fail request_id (ok a) = ok a
or_fail request_id (raise exc) =
    raise (fail request_id exc.status_code exc.code (stage exc.message))
