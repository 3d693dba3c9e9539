-- ===== src/Coordination/Reconcile.antt =====
-- internal/coordination/runtime.go: the reconcile loop of a project's runtime.
pub mod Run
pub mod Fold
pub mod Dispatch
pub mod Claims
pub mod Stops
pub mod Stopped
pub mod Stopping
pub mod Loop
pub mod Traced
pub mod Whole
pub mod Ends
pub mod Total
