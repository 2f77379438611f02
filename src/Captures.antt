-- ===== src/Captures.antt =====
-- services/gateway/telemetry/debug_capture.py: `DebugCaptureStore`. `redact` is the redaction of a
-- text; times are readings of the monotonic clock, in nanoseconds.
pub mod Redaction
use bedrock_gateway_platform.Base.{
  ℕ, ◌+◌, String, Option, none, some, string_eq, leb, if◌then◌else◌,
}
use bedrock_gateway_platform.Dict
use bedrock_gateway_platform.Dict.{Dict}

pub record DebugRecord : Type 0 where
  pub request_id : String
  pub tenant_id : String
  pub redacted_input : String
  pub redacted_output : String
  pub captured_at : ℕ

pub record DebugCaptureStore : Type 0 where
  pub ttl : ℕ
  pub records : Dict String DebugRecord

unfoldable pub capture :
    (String → String)
    → ℕ
    → DebugCaptureStore
    → String
    → String
    → String
    → String
    → DebugCaptureStore
capture redact now store request_id tenant_id input_text output_text = record store {
  records =
      Dict.put request_id
        (record {
          request_id = request_id;
          tenant_id = tenant_id;
          redacted_input = redact input_text;
          redacted_output = redact output_text;
          captured_at = now;
        })
        store.records;
}

abbrev pub unexpired :
    ℕ → DebugCaptureStore → String → Option DebugRecord → Option DebugRecord × DebugCaptureStore
unexpired now store request_id none = (none, store)
unexpired now store request_id (some r) =
    if leb (r.captured_at + store.ttl) now
    then (none, record store { records = Dict.pop request_id store.records })
    else (some r, store)

unfoldable pub get : ℕ → DebugCaptureStore → String → Option DebugRecord × DebugCaptureStore
get now store request_id = unexpired now store request_id (Dict.get request_id store.records)
