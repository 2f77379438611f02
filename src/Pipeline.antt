-- ===== src/Pipeline.antt =====
-- services/gateway/pipeline.py: the stages of a request before and after the model.
pub mod Errors
pub mod Authenticate
pub mod Admission
pub mod Guardrail
pub mod Guards
