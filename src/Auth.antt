-- ===== src/Auth.antt =====
-- Sign-in, of internal/auth: logins, passwords, and the delays after failed attempts.
pub mod Login
pub mod Throttle
mod Examples
