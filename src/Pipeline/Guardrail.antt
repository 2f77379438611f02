-- ===== src/Pipeline/Guardrail.antt =====
-- services/gateway/pipeline.py: the guardrail stages before and after the model.
use bedrock_gateway_platform.Base.{
  ℕ, String, Option, none, some, Result, ok, raise, string_eq, ◌==◌, if◌then◌else◌,
}
use bedrock_gateway_platform.Policy.Models.{TenantPolicy}
use bedrock_gateway_platform.Guardrails.Models.{
  GuardrailAction, allow, block, GuardrailDecision, GuardrailCheckError, GuardrailClient,
}
use bedrock_gateway_platform.Guardrails.FailClosed.{GuardrailUnavailableError, run_guardrail_check}
use bedrock_gateway_platform.Pipeline.Errors.{PipelineError, error}

unfoldable pub run_guardrail :
    Result GuardrailCheckError GuardrailDecision
    → TenantPolicy
    → Result GuardrailUnavailableError GuardrailDecision
run_guardrail check policy =
    run_guardrail_check check policy.guardrail_policy policy.allow_guardrail_bypass_on_error

-- decision.reason or default
abbrev pub reason_or : Option String → String → String
reason_or none default = default
reason_or (some reason) default = if reason == "" then default else reason

-- What a stage makes of the decision: the status and the code with which it blocks, and the reason
-- that it gives where the decision has none.
abbrev pub act_on :
    ℕ
    → String
    → String
    → Result GuardrailUnavailableError GuardrailDecision
    → GuardrailAction
    → Result PipelineError GuardrailDecision
act_on status code default (raise exc) action =
    raise (error 503 "AI_SAFETY_SERVICE_UNAVAILABLE" exc.message)
act_on status code default (ok decision) block =
    raise (error status code (reason_or decision.reason default))
act_on status code default (ok decision) allow = ok decision

abbrev pub action_of : Result GuardrailUnavailableError GuardrailDecision → GuardrailAction
action_of (raise exc) = block
action_of (ok decision) = decision.action

unfoldable pub check_input_guardrail :
    GuardrailClient → TenantPolicy → String → Result PipelineError GuardrailDecision
check_input_guardrail client policy text =
    let outcome = run_guardrail (client.check_input text policy.guardrail_policy) policy in
    act_on 400 "INPUT_BLOCKED" "input blocked by guardrail" outcome (action_of outcome)

unfoldable pub check_output_guardrail :
    GuardrailClient → TenantPolicy → String → Result PipelineError GuardrailDecision
check_output_guardrail client policy text =
    let outcome = run_guardrail (client.check_output text policy.guardrail_policy) policy in
    act_on 502 "OUTPUT_BLOCKED" "output blocked by guardrail" outcome (action_of outcome)
