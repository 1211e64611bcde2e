-- ===== src/Service.antt =====
-- internal/service: ingestion and manual actions on events.
pub mod Transition
pub mod Input
pub mod Ingest
pub mod Examples
