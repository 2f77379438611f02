-- ===== src/Pipeline/Errors.antt =====
-- services/gateway/pipeline.py: `PipelineError`.
use bedrock_gateway_platform.Base.{ℕ, String, string_eq}

-- The text of an error: written out, or `str(UnknownTenantError(tenant_id))`.
pub data Message : Type 0 where
  plain : String → Message
  unknown_tenant : String → Message

pub record PipelineError : Type 0 where
  pub status_code : ℕ
  pub code : String
  pub message : Message

abbrev pub error : ℕ → String → String → PipelineError
error status_code code message = record {
  status_code = status_code;
  code = code;
  message = plain message;
}
