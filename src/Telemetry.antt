-- ===== src/Telemetry.antt =====
-- services/gateway/telemetry, but for debug_capture.py.
pub mod Logging
pub mod Cost
pub mod Spans
pub mod Middleware
