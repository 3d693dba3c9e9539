-- ===== src/MergeQueue/Tests.antt =====
-- The theorems on the merge queue at concrete candidates.
mod Code
mod Data
mod Queues
