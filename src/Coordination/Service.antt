-- ===== src/Coordination/Service.antt =====
-- internal/coordination/decision.go and service.go: the Task Manager's decisions, and its calls of the
-- store.
pub mod Decisions
pub mod Calls
pub mod Again
pub mod Permission
pub mod Authority
