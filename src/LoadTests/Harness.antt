-- ===== src/LoadTests/Harness.antt =====
-- loadtests/harness.py: the tenants and tokens of a scenario.
use bedrock_gateway_platform.Base.{ℕ, String, false, Option, none, some, List, [], ◌∷◌}
use bedrock_gateway_platform.Base.Int.{pos}
use bedrock_gateway_platform.Base.Text.{f_string}
use bedrock_gateway_platform.Policy.Models.{active, TenantPolicy}
use bedrock_gateway_platform.Auth.DevKeys.{TokenLibrary, mint_dev_token}

abbrev pub issuer : String
issuer = "https://loadtest-issuer.local/"

abbrev pub audience : String
audience = "bedrock-gateway"

-- roles or ["developer"]
abbrev pub roles_or_developer : Option (List String) → List String
roles_or_developer none = "developer" ∷ []
roles_or_developer (some []) = "developer" ∷ []
roles_or_developer (some (r ∷ rs)) = r ∷ rs

-- `private_key_pem` is the field of the scenario's app.
module _ (library : TokenLibrary) (private_key_pem : String) where
  unfoldable pub token : ℕ → String → Option (List String) → String → String
  token now tenant_id roles sub =
      mint_dev_token library now private_key_pem issuer audience sub tenant_id "loadtest"
        (roles_or_developer roles) 3600

  -- The value of the header "authorization".
  unfoldable pub auth_header : ℕ → String → Option (List String) → String
  auth_header now tenant_id roles =
      f_string ("Bearer " ∷ token now tenant_id roles "load-test-user" ∷ [])

  unfoldable pub admin_header : ℕ → String
  admin_header now = auth_header now "platform" (some ("platform_admin" ∷ []))

-- The policy without overrides; the other fields have the defaults of the dataclass.
unfoldable pub default_tenant_policy : String → TenantPolicy
default_tenant_policy tenant_id = record {
  tenant_id = tenant_id;
  state = active;
  models = [];
  rpm_limit = pos 10000;
  guardrail_policy = "standard-v1";
  route_set = none;
  slo = record { p95_latency_ms = none };
  policy_epoch = pos 1;
  allow_guardrail_bypass_on_error = false;
  debug_capture_enabled = false;
}
