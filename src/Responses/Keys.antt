-- ===== src/Responses/Keys.antt =====
-- services/gateway/cache/keys.py: what a cache key stands for. The key is a digest of the payload's
-- canonical JSON; the payload's three reserved entries are always null and stand for nothing.
use bedrock_gateway_platform.Base.{
  ℕ, String, Option, none, some, List, string_eq, ◌==◌, if◌then◌else◌,
}
use bedrock_gateway_platform.Base.Int.{ℤ}
use bedrock_gateway_platform.Policy.Models.{TenantPolicy}

-- A chat message as the request carries it.
pub record ChatMessage : Type 0 where
  pub role : String
  pub content : String

pub record Payload : Type 0 where
  pub tenant_id : String
  pub application_id : String
  pub model_route_id : String
  pub model_version : String
  pub max_tokens : ℕ
  pub temperature : ℕ
  pub normalized_messages : List ChatMessage
  pub guardrail_version : String
  pub policy_epoch : ℤ

-- policy.route_set or "default"
abbrev pub route_id : Option String → String
route_id none = "default"
route_id (some name) = if name == "" then "default" else name

unfoldable pub cache_payload :
    String → String → TenantPolicy → String → ℕ → ℕ → List ChatMessage → Payload
cache_payload tenant_id application_id policy model_id max_tokens temperature messages = record {
  tenant_id = tenant_id;
  application_id = application_id;
  model_route_id = route_id policy.route_set;
  model_version = model_id;
  max_tokens = max_tokens;
  temperature = temperature;
  normalized_messages = messages;
  guardrail_version = policy.guardrail_policy;
  policy_epoch = policy.policy_epoch;
}
