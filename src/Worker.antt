-- ===== src/Worker.antt =====
-- internal/delivery/worker.go: the delivery worker.
pub mod Options
pub mod Process
pub mod Scheduler
mod Examples
