-- ===== src/Core.antt =====
-- What the services share (app/core).
pub mod Errors
pub mod Integrity
pub mod Modules
pub mod Access
pub mod Scope
mod Tests
