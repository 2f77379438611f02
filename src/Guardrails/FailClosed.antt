-- ===== src/Guardrails/FailClosed.antt =====
-- services/gateway/guardrails/fail_closed.py.
use bedrock_gateway_platform.Base.{
  String, Bool, true, false, ◌&&◌, none, some, [], ◌∷◌, Result, ok, raise, if◌then◌else◌,
}
use bedrock_gateway_platform.Base.Text.{codes, lower, has_part, f_string}
use bedrock_gateway_platform.Guardrails.Models.{
  allow, SafetyClass, strict, standard, low_risk, value, GuardrailDecision, GuardrailCheckError,
}

pub record GuardrailUnavailableError : Type 0 where
  pub message : String

unfoldable pub classify_safety : String → SafetyClass
classify_safety guardrail_policy =
    let lowered = lower (codes guardrail_policy) in
    if has_part lowered (codes "strict")
    then strict
    else if has_part lowered (codes "low")
    then low_risk
    else standard

abbrev pub is_low_risk : SafetyClass → Bool
is_low_risk low_risk = true
is_low_risk _ = false

-- The decision by which a failed check is bypassed.
abbrev pub bypass : GuardrailCheckError → GuardrailDecision
bypass exc = record {
  action = allow;
  category = none;
  reason = some (f_string ("guardrail bypassed on error: " ∷ exc.message ∷ []));
}

-- The `except` branch.
abbrev pub on_error :
    SafetyClass → Bool → GuardrailCheckError → Result GuardrailUnavailableError GuardrailDecision
on_error safety_class allow_bypass_on_error exc =
    if is_low_risk safety_class && allow_bypass_on_error
    then ok (bypass exc)
    else raise (record {
      message =
          f_string
            ("guardrail check unavailable (" ∷ value safety_class ∷ "): " ∷ exc.message ∷ []);
    })

abbrev pub completed_or :
    SafetyClass
    → Bool
    → Result GuardrailCheckError GuardrailDecision
    → Result GuardrailUnavailableError GuardrailDecision
completed_or safety_class allow_bypass_on_error (ok decision) = ok decision
completed_or safety_class allow_bypass_on_error (raise exc) =
    on_error safety_class allow_bypass_on_error exc

-- `check` is what the call of the check gives.
unfoldable pub run_guardrail_check :
    Result GuardrailCheckError GuardrailDecision
    → String
    → Bool
    → Result GuardrailUnavailableError GuardrailDecision
run_guardrail_check check guardrail_policy allow_bypass_on_error =
    completed_or (classify_safety guardrail_policy) allow_bypass_on_error check
