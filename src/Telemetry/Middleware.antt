-- ===== src/Telemetry/Middleware.antt =====
-- services/gateway/telemetry/middleware.py, and the handler of exceptions that nothing else handles in
-- services/gateway/main.py.
use bedrock_gateway_platform.Base.{
  ℕ, String, Option, none, some, [], ◌∷◌, string_eq, ◌==◌, if◌then◌else◌, Result, ok, raise,
}
use bedrock_gateway_platform.Base.Int.{pos}
use bedrock_gateway_platform.Dict
use bedrock_gateway_platform.Dict.{Dict}
use bedrock_gateway_platform.Telemetry.Logging.{text, number, LogRecord, log_event}

-- request.headers.get("x-request-id") or str(uuid.uuid4())
unfoldable pub request_id_of : Option String → String → String
request_id_of none generated = generated
request_id_of (some header) generated = if header == "" then generated else header

pub record HttpRequest : Type 0 where
  pub method : String
  pub path : String
  pub x_request_id : Option String

pub record HttpResponse : Type 0 where
  pub status_code : ℕ
  pub headers : Dict String String

-- What a request leaves behind: a response, or an exception that goes on, and a line of the log.
pub record Dispatched : Type 0 where
  pub outcome : Result String HttpResponse
  pub access : LogRecord

abbrev pub status_of : Result String HttpResponse → ℕ
status_of (ok response) = response.status_code
status_of (raise exc) = 500

abbrev pub echoed : String → Result String HttpResponse → Result String HttpResponse
echoed request_id (ok response) =
    ok (record response { headers = Dict.put "x-request-id" request_id response.headers })
echoed request_id (raise exc) = raise exc

-- `call_next` is the rest of the application, given the request's id, which the source also keeps in a
-- context variable until the end of the call. The duration is counted in
-- hundredths of a millisecond, to which the program rounds it.
unfoldable pub dispatch :
    ℕ → String → ℕ → HttpRequest → (String → Result String HttpResponse) → Dispatched
dispatch now generated duration_ms request call_next =
    let request_id = request_id_of request.x_request_id generated in
    let outcome = call_next request_id in
    record {
      outcome = echoed request_id outcome;
      access = log_event now "gateway.access" "INFO" "request completed" (some request_id) none (
          ("method", text request.method)
          ∷ ("path", text request.path)
          ∷ ("status", number (pos (status_of outcome)))
          ∷ ("duration_ms", number (pos duration_ms))
          ∷ []);
    }

-- The body of the answer, and the line of the log.
pub record InternalError : Type 0 where
  pub status_code : ℕ
  pub code : String
  pub message : String
  pub request_id : String
  pub logged : LogRecord

abbrev pub request_id_or : String → Option String → String
request_id_or generated none = generated
request_id_or generated (some request_id) = request_id

-- `unhandled_error`; the request's state may lack an id.
unfoldable pub unhandled_error : ℕ → String → Option String → String → String → InternalError
unhandled_error now generated state_request_id path exc =
    let request_id = request_id_or generated state_request_id in
    record {
      status_code = 500;
      code = "INTERNAL_ERROR";
      message = "internal error";
      request_id = request_id;
      logged =
          log_event now "gateway.main" "ERROR" "unhandled exception" (some request_id) (some exc)
            (("path", text path) ∷ []);
    }
