-- ===== src/Guardrails.antt =====
-- services/gateway/guardrails: decisions, and what becomes of a check that could not be completed.
pub mod Models
pub mod FailClosed
pub mod Patterns
pub mod Basic
