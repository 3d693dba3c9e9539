-- ===== src/Coordination/Runtime.antt =====
-- internal/coordination/recovery.go, command_store.go and phase_observation.go: what the scheduler
-- keeps of the phases that it runs, and which endpoints it may start.
pub mod Port
pub mod View
pub mod Runnable
pub mod Observations
pub mod Commands
pub mod Marks
pub mod Writes
pub mod Claims
pub mod Lasting
pub mod Waits
pub mod Ready
pub mod Folding
pub mod Rejection
