-- ===== src/Scheduler.antt =====
-- internal/scheduler/scheduler.go: the ledgers of capacity and budget, and the selection of what to
-- run next.
pub mod Ledgers
pub mod Select
pub mod Fitting
pub mod Bounds
mod Tests
