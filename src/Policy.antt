-- ===== src/Policy.antt =====
-- The tenant policy plane: services/gateway/policy.
pub mod Models
pub mod Store
pub mod Snapshots
pub mod Limiter
