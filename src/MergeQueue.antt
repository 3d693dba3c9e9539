-- ===== src/MergeQueue.antt =====
-- The merge queue of internal/mergequeue: its in-memory store, and what holds of it.
pub mod Model
pub mod Checks
pub mod Audits
pub mod Store
pub mod Steps
pub mod Calls
pub mod Moves
pub mod Tables
pub mod Effects
pub mod OperationEffects
pub mod Evidence
pub mod Order
pub mod Claiming
pub mod Invariant
pub mod Fencing
pub mod Replay
mod Tests
