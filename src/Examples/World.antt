-- ===== src/Examples/World.antt =====
-- A gateway with one tenant, and a caller with a token who has the chat role and the admin role.
use bedrock_gateway_platform.Base.{ℕ, suc, String, false, none, some, [], ◌∷◌, ok, string_eq}
use bedrock_gateway_platform.Base.Int.{pos}
use bedrock_gateway_platform.Config.Environment.{Settings}
use bedrock_gateway_platform.Policy.Models.{active}
use bedrock_gateway_platform.Inference.{ConverseClient}
use bedrock_gateway_platform.Guardrails.Models.{GuardrailDecision}
use bedrock_gateway_platform.Guardrails.Models
use bedrock_gateway_platform.Auth.Identity.{Identity, jwt, items, role}
use bedrock_gateway_platform.Api.Gateway.{Services, Readings, Gateway, Headers, Request, typed}

abbrev pub other_tenant : String
other_tenant = "globex"

-- A service that counts its calls.
abbrev pub counting : ConverseClient
counting = record {
  State = ℕ;
  converse = λ n m arguments. (
    ok (record {
      text = "hello";
      input_tokens = 3;
      output_tokens = 2;
      stop_reason = none;
      latency_ms = 100;
      retry_count = 0;
    }),
    suc n,
  );
  converse_stream = λ n m arguments. (record { yielded = []; failure = none }, suc n);
}

abbrev pub allow_all : GuardrailDecision
allow_all = record { action = Models.allow; category = none; reason = none }

abbrev pub settings : Settings
settings = record {
  aws_region = "us-east-1";
  bedrock_model_id = "claude";
  bedrock_timeout_s = 30000000000;
  bedrock_max_retries = pos 2;
  host = "0.0.0.0";
  port = pos 8080;
  service_name = "gateway-api";
  log_level = "INFO";
  max_input_chars = pos 32000;
  oidc_issuer = "https://dev-issuer.local/";
  oidc_audience = "bedrock-gateway";
  oidc_jwks_url = "";
  oidc_jwks_cache_ttl_s = 300000000000;
  dev_jwt_keypair_path = ".dev/jwt_keypair.json";
  chat_required_role = "chat";
  admin_required_role = "admin";
  iam_tenants_path = "policies/iam_tenants.yaml";
  tenant_policy_path = "policies/tenants.yaml";
  policy_cache_ttl_s = 30000000000;
  route_set_config_path = "policies/route_sets.yaml";
  response_cache_ttl_s = 60000000000;
  response_cache_max_entries = pos 1000;
  circuit_breaker_failure_threshold = pos 5;
  circuit_breaker_reset_timeout_s = 30000000000;
  otel_exporter_otlp_endpoint = "";
  debug_capture_ttl_s = 900000000000;
}

abbrev pub services : Services
services = record {
  settings = settings;
  client = counting;
  route_sets = [];
  token_verifier = λ token. ok (record {
    sub = some "jo";
    tenant_id = some "acme";
    application_id = some "app";
    roles = items (role "chat" ∷ role "admin" ∷ []);
  });
  iam_tenant_resolver = none;
  guardrail_client = record {
    check_input = λ text policy. ok allow_all;
    check_output = λ text policy. ok allow_all;
  };
  digest = λ p. p.model_version;
  redact = λ text. "";
}

abbrev pub readings : Readings
readings = record {
  policy_checked = 1;
  policy_stored = 2;
  limited = 3;
  stream_allowed = 4;
  cache_read = 5;
  loop = record { allow_at = λ n. 6; fail_at = λ n. 7 };
  cache_written = 8;
  captured = 9;
}

abbrev pub gateway : Gateway services
gateway = record {
  policy_store = record {
    policies =
        (
          "acme",
          record {
            tenant_id = "acme";
            state = active;
            models = "claude" ∷ [];
            rpm_limit = pos 2;
            guardrail_policy = "strict-v1";
            route_set = none;
            slo = record { p95_latency_ms = none };
            policy_epoch = pos 4;
            allow_guardrail_bypass_on_error = false;
            debug_capture_enabled = false;
          },
        )
        ∷ [];
  };
  policy_cache = record { ttl = 10; snapshots = [] };
  rate_limiter = [];
  circuit_breaker = record { failure_threshold = 2; reset_timeout = 10; breakers = [] };
  client_state = 0;
  response_cache = record { ttl = 10; max_entries = 4; entries = [] };
  debug_captures = record { ttl = 10; records = [] };
}

abbrev pub headers : Headers
headers = record { authorization = some "Bearer t"; principal_arn = none; account_id = none }

abbrev pub question : Request
question = record {
  request_id = "r1";
  headers = headers;
  body = typed (record {
    model = none;
    messages = record { role = "user"; content = "hi" } ∷ [];
    max_tokens = none;
    temperature = none;
    stream = none;
  });
}

abbrev pub caller : Identity
caller = record {
  sub = "jo";
  tenant_id = "acme";
  application_id = "app";
  roles = "chat" ∷ "admin" ∷ [];
  auth_type = jwt;
  account_id = none;
}
