-- ===== src/Provisions.antt =====
-- The provisions of the finance module (app/api/finance/provisions), one child per concern.
pub mod Model
pub mod Repository
pub mod Access
pub mod Money
pub mod Responses
pub mod Workflow
pub mod Edit
pub mod Documents
pub mod Grants
pub mod Create
pub mod Queries
pub mod Lifecycle
pub mod Refine
mod Fixtures
mod Tests
