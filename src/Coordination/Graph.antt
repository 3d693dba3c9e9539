-- ===== src/Coordination/Graph.antt =====
-- internal/coordination/validation.go: what a stored graph must satisfy, and the proofs about it.
pub mod Validation
pub mod Acyclic
pub mod Check
