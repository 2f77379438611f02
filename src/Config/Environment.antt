-- ===== src/Config/Environment.antt =====
-- services/gateway/config.py. `environ` is `os.environ`. A field whose name ends in `_s` is a number of
-- seconds in the source, and of nanoseconds here; no duration is below zero.
use bedrock_gateway_platform.Base.{
  ℕ, ◌*◌, String, Option, none, some, ok, raise, ◌>>=◌, string_eq, ◌==◌, if◌then◌else◌,
}
use bedrock_gateway_platform.Base.Int.{ℤ, pos}
use bedrock_gateway_platform.Dict
use bedrock_gateway_platform.Dict.{Dict}
use bedrock_gateway_platform.Config.Numbers.{int_of}
use bedrock_gateway_platform.Config.Yaml.{value_error, Loaded}

pub record Settings : Type 0 where
  pub aws_region : String
  pub bedrock_model_id : String
  pub bedrock_timeout_s : ℕ
  pub bedrock_max_retries : ℤ
  pub host : String
  pub port : ℤ
  pub service_name : String
  pub log_level : String
  pub max_input_chars : ℤ
  pub oidc_issuer : String
  pub oidc_audience : String
  pub oidc_jwks_url : String
  pub oidc_jwks_cache_ttl_s : ℕ
  pub dev_jwt_keypair_path : String
  pub chat_required_role : String
  pub admin_required_role : String
  pub iam_tenants_path : String
  pub tenant_policy_path : String
  pub policy_cache_ttl_s : ℕ
  pub route_set_config_path : String
  pub response_cache_ttl_s : ℕ
  pub response_cache_max_entries : ℤ
  pub circuit_breaker_failure_threshold : ℤ
  pub circuit_breaker_reset_timeout_s : ℕ
  pub otel_exporter_otlp_endpoint : String
  pub debug_capture_ttl_s : ℕ

-- os.environ.get(name, default)
abbrev pub text_or : String → Option String → String
text_or fallback none = fallback
text_or fallback (some raw) = raw

abbrev pub env_text : Dict String String → String → String → String
env_text environ name fallback = text_or fallback (Dict.get name environ)

abbrev pub or_value_error : {A : Type 0} → Option A → Loaded A
or_value_error none = raise value_error
or_value_error (some a) = ok a

-- What `_env_int` and `_env_float` do with a variable, for a reading of its text.
abbrev pub parsed_or : {A : Type 0} → (String → Option A) → A → Option String → Loaded A
parsed_or read fallback none = ok fallback
parsed_or read fallback (some raw) = if raw == "" then ok fallback else or_value_error (read raw)

unfoldable pub env_int : Dict String String → String → ℤ → Loaded ℤ
env_int environ name fallback = parsed_or int_of fallback (Dict.get name environ)

abbrev pub seconds : ℕ → ℕ
seconds n = n * 1000000000

-- `float_of` reads a number of seconds as `float` does, in nanoseconds.
module _ (float_of : String → Option ℕ) where
  unfoldable pub env_float : Dict String String → String → ℕ → Loaded ℕ
  env_float environ name fallback = parsed_or float_of fallback (Dict.get name environ)

  unfoldable pub load_settings : Dict String String → Loaded Settings
  load_settings environ = do
    bedrock_timeout_s ← env_float environ "BEDROCK_TIMEOUT_S" (seconds 30)
    bedrock_max_retries ← env_int environ "BEDROCK_MAX_RETRIES" (pos 2)
    port ← env_int environ "GATEWAY_PORT" (pos 8080)
    max_input_chars ← env_int environ "MAX_INPUT_CHARS" (pos 32000)
    oidc_jwks_cache_ttl_s ← env_float environ "OIDC_JWKS_CACHE_TTL_S" (seconds 300)
    policy_cache_ttl_s ← env_float environ "POLICY_CACHE_TTL_S" (seconds 30)
    response_cache_ttl_s ← env_float environ "RESPONSE_CACHE_TTL_S" (seconds 60)
    response_cache_max_entries ← env_int environ "RESPONSE_CACHE_MAX_ENTRIES" (pos 1000)
    circuit_breaker_failure_threshold ← env_int environ "CIRCUIT_BREAKER_FAILURE_THRESHOLD" (pos 5)
    circuit_breaker_reset_timeout_s ←
        env_float environ "CIRCUIT_BREAKER_RESET_TIMEOUT_S" (seconds 30)
    debug_capture_ttl_s ← env_float environ "DEBUG_CAPTURE_TTL_S" (seconds 900)
    ok (record {
      aws_region = env_text environ "AWS_REGION" "us-east-1";
      bedrock_model_id = env_text environ "BEDROCK_MODEL_ID" "us.amazon.nova-micro-v1:0";
      bedrock_timeout_s = bedrock_timeout_s;
      bedrock_max_retries = bedrock_max_retries;
      host = env_text environ "GATEWAY_HOST" "0.0.0.0";
      port = port;
      service_name = env_text environ "SERVICE_NAME" "gateway-api";
      log_level = env_text environ "LOG_LEVEL" "INFO";
      max_input_chars = max_input_chars;
      oidc_issuer = env_text environ "OIDC_ISSUER" "https://dev-issuer.local/";
      oidc_audience = env_text environ "OIDC_AUDIENCE" "bedrock-gateway";
      oidc_jwks_url = env_text environ "OIDC_JWKS_URL" "";
      oidc_jwks_cache_ttl_s = oidc_jwks_cache_ttl_s;
      dev_jwt_keypair_path = env_text environ "DEV_JWT_KEYPAIR_PATH" ".dev/jwt_keypair.json";
      chat_required_role = env_text environ "CHAT_REQUIRED_ROLE" "developer";
      admin_required_role = env_text environ "ADMIN_REQUIRED_ROLE" "platform_admin";
      iam_tenants_path = env_text environ "IAM_TENANTS_PATH" "policies/iam_tenants.yaml";
      tenant_policy_path = env_text environ "TENANT_POLICY_PATH" "policies/tenants.yaml";
      policy_cache_ttl_s = policy_cache_ttl_s;
      route_set_config_path = env_text environ "ROUTE_SET_CONFIG_PATH" "policies/route_sets.yaml";
      response_cache_ttl_s = response_cache_ttl_s;
      response_cache_max_entries = response_cache_max_entries;
      circuit_breaker_failure_threshold = circuit_breaker_failure_threshold;
      circuit_breaker_reset_timeout_s = circuit_breaker_reset_timeout_s;
      otel_exporter_otlp_endpoint = env_text environ "OTEL_EXPORTER_OTLP_ENDPOINT" "";
      debug_capture_ttl_s = debug_capture_ttl_s;
    })
