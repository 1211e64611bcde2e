-- ===== src/Config.antt =====
-- internal/config/config.go: the configuration as it stands after the file is decoded.
pub mod Types
pub mod Defaults
pub mod Checks
pub mod Table
pub mod Validate
pub mod Env
mod Examples
