-- ===== src/Domain.antt =====
-- The data model of internal/domain: events, their lifecycle, and delivery attempts.
pub mod Event
pub mod Severity
pub mod Action
pub mod Delivery
pub mod Errors
pub mod Truncate
mod Examples
