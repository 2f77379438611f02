-- ===== src/Guardrails/Models.antt =====
-- services/gateway/guardrails/models.py, and the contract of client.py.
use bedrock_gateway_platform.Base.{String, Option, Result}

pub data GuardrailAction : Type 0 where
  allow block : GuardrailAction

pub data SafetyClass : Type 0 where
  strict standard low_risk : SafetyClass

-- The string that stands for the class.
abbrev pub value : SafetyClass → String
value strict = "STRICT"
value standard = "STANDARD"
value low_risk = "LOW_RISK"

pub record GuardrailDecision : Type 0 where
  pub action : GuardrailAction
  pub category : Option String
  pub reason : Option String

-- The check could not be completed; it holds `str(exc)`.
pub record GuardrailCheckError : Type 0 where
  pub message : String

-- The protocol `GuardrailClient`: the text and the id of the guardrail policy give a decision, or the
-- check raises.
pub record GuardrailClient : Type 0 where
  pub check_input : String → String → Result GuardrailCheckError GuardrailDecision
  pub check_output : String → String → Result GuardrailCheckError GuardrailDecision
