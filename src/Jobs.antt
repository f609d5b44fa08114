-- ===== src/Jobs.antt =====
-- Asynchronous jobs: rows, service, dispatcher and workers (app/api/jobs, app/models/jobs,
-- app/workers).
pub mod Model
pub mod Repository
pub mod Fixtures
pub mod Invariant
pub mod Progress
pub mod Batching
pub mod Service
pub mod Create
pub mod Cancel
pub mod Dispatcher
pub mod Retry
pub mod Listing
mod Tests
