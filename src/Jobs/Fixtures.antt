-- ===== src/Jobs/Fixtures.antt =====
-- Rows that the tests of several modules start from.
use proyecto.Common.{none, some, List, [], ◌∷◌}
use proyecto.Common.Value.{Dict}
use proyecto.Jobs.Model.{
  sap_reconciliation, JobTriggerSource, JobStatus, JobBatchStatus, JobItemStatus, JobItem, JobBatch,
  Job,
}

abbrev pub item_in : JobItemStatus → JobItem
item_in status = record {
  reference = "10";
  status = status;
  attempts = 1;
  external_status_code = none;
  result_data = none;
  safe_error = none;
  started_at = none;
  finished_at = none;
}

abbrev pub batch_in : JobBatchStatus → List JobItem → JobBatch
batch_in status items = record {
  id = 101;
  sequence = 1;
  status = status;
  celery_task_id = some 500;
  attempts = 1;
  total_items = 2;
  succeeded_items = 0;
  failed_items = 0;
  cancelled_items = 0;
  started_at = none;
  finished_at = none;
  heartbeat_at = none;
  error_summary = none;
  items = items;
}

abbrev pub job_of : JobBatch → Job
job_of batch = record {
  id = 1;
  parent_job_id = none;
  scheduled_job_id = none;
  trigger_source = JobTriggerSource.api;
  job_type = sap_reconciliation;
  status = JobStatus.running;
  parameters = Dict.empty;
  idempotency_key = none;
  total_items = 2;
  processed_items = 0;
  succeeded_items = 0;
  failed_items = 0;
  cancelled_items = 0;
  total_batches = 1;
  finished_batches = 0;
  started_at = none;
  finished_at = none;
  cancel_requested_at = none;
  error_summary = none;
  encrypted_secrets = none;
  created_by = 7;
  updated_by = none;
  batches = batch ∷ [];
}
