-- ===== src/Routing.antt =====
-- Circuit breaking and certified fallback: services/gateway/routing.
pub mod Breaker
pub mod Router
