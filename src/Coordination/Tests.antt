-- ===== src/Coordination/Tests.antt =====
-- Concrete graphs, stores and runtimes, and what the theorems on internal/coordination say of them.
mod Code
mod RuntimeCode
mod ReconcileCode
mod Data
mod Graphs
mod Transitions
mod Pendings
mod Stores
mod Runtimes
mod Reconciles
mod ServiceCode
mod Services
