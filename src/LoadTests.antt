-- ===== src/LoadTests.antt =====
-- loadtests/fault_injection.py and the parts of loadtests/harness.py that build the tenants and tokens
-- of a scenario.
pub mod Faults
pub mod Harness
