-- ===== src/Coordination/Store.antt =====
-- internal/coordination/memory_store.go: the store of the graph, its revisions and its history.
pub mod Snapshot
pub mod Project
pub mod Memory
pub mod Commits
pub mod Invariant
pub mod History
pub mod Keyed
