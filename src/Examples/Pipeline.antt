-- ===== src/Examples/Pipeline.antt =====
-- The stages of the pipeline that a policy decides, for one tenant.
use bedrock_gateway_platform.Base.{◌≡◌, ◌↔◌, refl, true, false, none, [], ◌∷◌, ok, raise}
use bedrock_gateway_platform.Base.Int.{pos}
use bedrock_gateway_platform.Policy.Models.{active, TenantPolicy}
use bedrock_gateway_platform.Guardrails.Models.{
  GuardrailDecision, GuardrailClient, strict, low_risk,
}
use bedrock_gateway_platform.Guardrails.FailClosed.{classify_safety}
use bedrock_gateway_platform.Pipeline.Guardrail.{check_input_guardrail}
use bedrock_gateway_platform.Pipeline.Guards.{Cleared, input_guardrail_iff}

abbrev lenient : TenantPolicy
lenient = record {
  tenant_id = "acme";
  state = active;
  models = "haiku" ∷ "opus" ∷ [];
  rpm_limit = pos 60;
  guardrail_policy = "faq-lowrisk-v1";
  route_set = none;
  slo = record { p95_latency_ms = none };
  policy_epoch = pos 1;
  allow_guardrail_bypass_on_error = true;
  debug_capture_enabled = false;
}

abbrev out_of_order : GuardrailClient
out_of_order = record {
  check_input = λ text policy. raise (record { message = "timeout" });
  check_output = λ text policy. raise (record { message = "timeout" });
}

-- A name that means something else is read as low risk.
allowlist_is_low_risk : classify_safety "allowlist-v1" ≡ low_risk
unfolding classify_safety
allowlist_is_low_risk = refl

strict_first : classify_safety "STRICT-low-v1" ≡ strict
unfolding classify_safety
strict_first = refl

input_guardrail_iff_example :
    ((d : GuardrailDecision) × (check_input_guardrail out_of_order lenient "hi" ≡ ok d))
    ↔ Cleared lenient (raise (record { message = "timeout" }))
input_guardrail_iff_example = input_guardrail_iff out_of_order lenient "hi"
