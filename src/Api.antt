-- ===== src/Api.antt =====
-- The HTTP handlers: services/gateway/api.
pub mod Handler
pub mod Schemas
pub mod Gateway
pub mod Answers
pub mod Chat
pub mod Admin
pub mod Planes
pub mod Stream
pub mod KillSwitch
