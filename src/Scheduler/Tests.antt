-- ===== src/Scheduler/Tests.antt =====
-- The theorems on the scheduler at concrete candidates.
mod Code
mod Selections
