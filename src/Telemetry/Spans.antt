-- ===== src/Telemetry/Spans.antt =====
-- services/gateway/telemetry/otel.py.
use bedrock_gateway_platform.Base.{
  String, Option, none, some, [], ◌∷◌, string_eq, ◌==◌, if◌then◌else◌,
}
use bedrock_gateway_platform.Dict
use bedrock_gateway_platform.Dict.{Dict}
use bedrock_gateway_platform.Telemetry.Logging.{Value, null}

-- Where spans go: to the console, or to an endpoint.
pub data Exporter : Type 0 where
  console_exporter : Exporter
  otlp_exporter : String → Exporter

-- The provider of tracers, with the service's name, once the tracing is configured.
pub record Tracing : Type 0 where
  pub provider : Option (String × Exporter)

abbrev pub exporter_for : Option String → Exporter
exporter_for none = console_exporter
exporter_for (some endpoint) = if endpoint == "" then console_exporter else otlp_exporter endpoint

abbrev pub configured_once : String → Option String → Option (String × Exporter) → Tracing
configured_once service_name otlp_endpoint none = record {
  provider = some (service_name, exporter_for otlp_endpoint);
}
configured_once service_name otlp_endpoint (some provider) = record { provider = some provider }

-- Only the first call has an effect.
unfoldable pub configure_tracing : String → Option String → Tracing → Tracing
configure_tracing service_name otlp_endpoint tracing =
    configured_once service_name otlp_endpoint tracing.provider

abbrev pub set_unless_null : String → Value → Dict String Value → Dict String Value
set_unless_null key null span = span
set_unless_null key value span = Dict.put key value span

-- The attributes of a span.
unfoldable pub set_span_attributes : Dict String Value → Dict String Value → Dict String Value
set_span_attributes [] span = span
set_span_attributes ((key, value) ∷ attributes) span =
    set_span_attributes attributes (set_unless_null key value span)
