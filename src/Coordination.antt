-- ===== src/Coordination.antt =====
-- internal/coordination: the Coordination Graph, its store and the state of its runtime.
pub mod Types
pub mod Graph
pub mod Transition
pub mod Pending
pub mod Store
pub mod Runtime
pub mod Reconcile
pub mod Service
mod Tests
