-- ===== src/Coordination/Pending.antt =====
-- The replacement of a pending subgraph in internal/coordination/validation.go.
pub mod Validate
pub mod Apply
pub mod Scope
