-- ===== src/Auth.antt =====
-- internal/platform/auth: what a principal may call.
pub mod Tools
pub mod Require
pub mod Allowed
pub mod Capability
pub mod Grants
mod Tests
