-- ===== src/Routing.antt =====
-- internal/routing/routing.go: which channels an event goes to.
pub mod Matcher
pub mod Router
mod Examples
