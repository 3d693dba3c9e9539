-- ===== src/Kernel.antt =====
-- internal/kernel/errors.go, id.go and revision.go: error codes, identifiers and revisions.
pub mod Errors
pub mod Revision
pub mod Idempotency
