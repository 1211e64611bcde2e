-- ===== src/Config/Env.antt =====
-- internal/config/env.go: the references to the environment, and the keys of the file.
pub mod Reference
pub mod Node
pub mod Substitute
pub mod Distance
pub mod Suggest
pub mod Keys
mod Examples
