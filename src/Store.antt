-- ===== src/Store.antt =====
-- The SQL store of internal/storage: its tables, its sessions, and its operations.
pub mod Schema
pub mod Session
pub mod Rows
pub mod Events
pub mod Transition
pub mod Refresh
pub mod Claim
pub mod MarkResult
pub mod Queue
pub mod Users
pub mod Listing
pub mod Spared
pub mod Retention
pub mod Monitoring
pub mod Examples
