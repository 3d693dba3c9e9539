-- ===== src/Coordination/Transition.antt =====
-- internal/coordination/transition.go: the Task Manager's transitions of endpoints, blockers and
-- tasks. A function that mutates `*graphState` returns the new state; on an error the caller drops
-- its clone.
pub mod Shape
pub mod Endpoint
pub mod Others
pub mod Observed
pub mod Apply
pub mod Machine
pub mod Generations
pub mod Results
pub mod Closed
pub mod Inputs
