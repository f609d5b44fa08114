-- ===== src/Scheduled.antt =====
-- Scheduled jobs: when they run next, and the scheduler that starts them (app/api/scheduled_jobs).
pub mod Clock
pub mod Schedule
pub mod Config
pub mod Rows
pub mod Run
pub mod Edit
mod Tests
