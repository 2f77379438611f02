-- ===== src/Api/Chat/Lines/Tells.antt =====
-- What a log line of services/gateway/api/routes.py says about the answer of its request.
use bedrock_gateway_platform.Base.{
  ℕ, ◌≡◌, refl, String, true, false, some, List, [], ◌∷◌, string_eq,
}
use bedrock_gateway_platform.Dict
use bedrock_gateway_platform.Dict.{Dict}
use bedrock_gateway_platform.Policy.Models.{TenantPolicy}
use bedrock_gateway_platform.Routing.Router.{RoutedResult}
use bedrock_gateway_platform.Responses.{CachedResponse}
use bedrock_gateway_platform.Auth.Identity.{Identity}
use bedrock_gateway_platform.Pipeline.Errors.{PipelineError}
use bedrock_gateway_platform.Telemetry.Logging.{
  Value, text, boolean, LogRecord, log_event, format, kept, update, level_of,
}
use bedrock_gateway_platform.Api.Gateway.{
  ErrorMessage, stage, Response, completed, streaming, rejected,
}
use bedrock_gateway_platform.Api.Answers.{fail}
use bedrock_gateway_platform.Api.Chat.Lines.{
  Timing, count, text_of, blocked_line, failed_line, cached_line, routed_line,
}

-- The fields of a dictionary.
abbrev pub Has : Dict String Value → List (String × Value) → Type 0
Has d [] = Unit {0}
Has d ((key, value) ∷ fields) = (Dict.get key d ≡ some value) × Has d fields

-- `show` is `str` of the exceptions whose text is not written out, `date` the formatting of a time.
module _ (show : ErrorMessage → String) (date : ℕ → String) where
  -- What a line says about the answer of its request.
  abbrev pub Tells : Response → Dict String Value → Type 0
  Tells (completed r) line = Has line (
      ("level", text "INFO")
      ∷ ("request_id", text r.request_id)
      ∷ ("status", count 200)
      ∷ ("model", text r.model)
      ∷ ("input_tokens", count r.input_tokens)
      ∷ ("output_tokens", count r.output_tokens)
      ∷ ("latency_ms", count r.latency_ms)
      ∷ ("cache_hit", boolean r.cache_hit)
      ∷ ("fallback", boolean r.fallback)
      ∷ [])
  Tells (rejected e) line = Has line (
      ("level", text "ERROR")
      ∷ ("request_id", text e.request_id)
      ∷ ("status", count e.status_code)
      ∷ ("error", text (text_of show e.message))
      ∷ [])
  Tells (streaming model_id arguments) line = ⊥

  -- An answer that may come without a line: all but a completed one.
  abbrev pub IsSilent : Response → Type 0
  IsSilent (completed r) = ⊥
  IsSilent (rejected e) = Unit {0}
  IsSilent (streaming model_id arguments) = Unit {0}

  abbrev pub Agree : Response → List LogRecord → Type 0
  Agree response [] = IsSilent response
  Agree response (line ∷ []) = Tells response (format date line)
  Agree response (line ∷ other ∷ lines) = ⊥

  module _ (timing : Timing) (request_id : String) (identity : Identity)
      (policy : TenantPolicy) where
    pub blocked_line-Tells :
        (model : String) (ms : ℕ) (exc : PipelineError)
        → Tells
            (rejected (record {
              status_code = exc.status_code;
              code = exc.code;
              message = stage exc.message;
              request_id = request_id;
            }))
            (format date (blocked_line show timing request_id identity policy model ms exc))
    unfolding blocked_line log_event level_of format kept update Dict.get Dict.put Dict.pop
    blocked_line-Tells model ms exc = (refl, (refl, (refl, (refl, tt))))

    pub failed_line-Tells :
        (model : String) (status : ℕ) (code : String) (message : ErrorMessage) (error : String)
        → text_of show message ≡ error
        → Tells
            (fail request_id status code message)
            (format date (failed_line show timing request_id identity policy model status error))
    unfolding failed_line log_event level_of format kept update Dict.get Dict.put Dict.pop
    failed_line-Tells model status code message error h = rw h (refl, (refl, (refl, (refl, tt))))

    pub cached_line-Tells :
        (x : CachedResponse)
        → Tells
            (completed (record {
              request_id = request_id;
              model = x.model_id;
              output = x.text;
              stop_reason = x.stop_reason;
              input_tokens = x.input_tokens;
              output_tokens = x.output_tokens;
              latency_ms = 0;
              cache_hit = true;
              fallback = false;
            }))
            (format date (cached_line show timing request_id identity policy x))
    unfolding cached_line log_event level_of format kept update Dict.get Dict.put Dict.pop
    cached_line-Tells x = (refl, (refl, (refl, (refl, (refl, (refl, (refl, (refl, (refl, tt)))))))))

    pub routed_line-Tells :
        (x : RoutedResult)
        → Tells
            (completed (record {
              request_id = request_id;
              model = x.model_id;
              output = x.result.text;
              stop_reason = x.result.stop_reason;
              input_tokens = x.result.input_tokens;
              output_tokens = x.result.output_tokens;
              latency_ms = x.result.latency_ms;
              cache_hit = false;
              fallback = x.fallback;
            }))
            (format date (routed_line show timing request_id identity policy x))
    unfolding routed_line log_event level_of format kept update Dict.get Dict.put Dict.pop
    routed_line-Tells x = (refl, (refl, (refl, (refl, (refl, (refl, (refl, (refl, (refl, tt)))))))))
