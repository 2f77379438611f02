-- ===== src/Auth.antt =====
-- services/gateway/auth: who the caller is.
pub mod Identity
pub mod Rbac
pub mod Iam
pub mod Jwks
pub mod DevKeys
