-- ===== src/Api.antt =====
-- The HTTP API of internal/api: what it decides about a request before any handler.
pub mod RateLimit
pub mod Proxies
pub mod Console
pub mod Access
pub mod Accounts
pub mod Respond
pub mod Events
pub mod Filters
pub mod Status
mod Examples
