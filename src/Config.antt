-- ===== src/Config.antt =====
-- Where the process takes its configuration from: YAML files, as PyYAML reads them, and the
-- environment.
pub mod Numbers
pub mod Yaml
pub mod Environment
pub mod Tables
pub mod Policies
pub mod Routes
pub mod Principals
