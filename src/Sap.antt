-- ===== src/Sap.antt =====
-- The worker of SAP batches: app/api/sap/service/sap_job_service.py and app/workers/sap_tasks.py.
pub mod World
pub mod Rows
pub mod Items
pub mod Process
pub mod Task
pub mod Session
mod Tests
