-- ===== src/Jobs/Retry.antt =====
-- `JobService.retry_job` of app/api/jobs/service.py.
pub mod Laws
mod Tests
use proyecto.Common.{
  ℕ, String, Bool, true, false, not, ◌&&◌, Option, none, some, List, [], ◌∷◌, if◌then◌else◌,
}
use proyecto.Core.Errors.{conflict, Exec, ◌>>=◌, ◌>>◌, refuse_if, modify}
use proyecto.Jobs.Model.{Uuid, JobTriggerSource, JobStatus, JobBatch, Job, is_terminal_job}
use proyecto.Jobs.Repository.{
  Db, put_job, get_dispatchable_batches, get_failed_references, get_failed_item_payloads,
}
use proyecto.Jobs.Service.{Dispatcher, get_job, dispatch}
use proyecto.Jobs.Create.{JobRequest, Surroundings, create_job, is_empty}

abbrev any_batch : List JobBatch → Bool
any_batch [] = false
any_batch (_ ∷ _) = true

-- A job that still has batches to publish is published again; any other gets a child job.
abbrev pub is_republishable : Job → Bool
is_republishable job = any_batch (get_dispatchable_batches job) && not (is_terminal_job job.status)

abbrev pub requeued : Job → Job
requeued job = record job { error_summary = none; status = JobStatus.queued }

unfoldable pub republish : Option Dispatcher → Job → Uuid → Exec Db Job
republish dispatcher job user_id = do
  modify (put_job (requeued job))
  dispatch dispatcher job.id
  get_job job.id user_id true

-- The arguments of the call of `create_job`.
abbrev pub retry_request : Job → Uuid → ℕ → JobRequest
retry_request job user_id batch_size = record {
  job_type = job.job_type;
  parameters = job.parameters;
  references = get_failed_references job;
  user_id = user_id;
  batch_size = batch_size;
  idempotency_key = none;
  parent_job_id = some job.id;
  scheduled_job_id = job.scheduled_job_id;
  trigger_source = JobTriggerSource.retry;
  encrypted_secrets = job.encrypted_secrets;
  item_payloads = get_failed_item_payloads job;
}

unfoldable pub create_child : Surroundings → Option Dispatcher → Job → Uuid → ℕ → Exec Db Job
create_child s dispatcher job user_id batch_size = do
  refuse_if (is_empty (get_failed_references job))
      (conflict "La tarea no tiene elementos fallidos para reintentar")
  create_job s (retry_request job user_id batch_size) dispatcher

unfoldable pub retry_job : Surroundings → Option Dispatcher → Uuid → Uuid → Bool → ℕ → Exec Db Job
retry_job s dispatcher job_id user_id can_retry_all batch_size = do
  job ← get_job job_id user_id can_retry_all
  if is_republishable job
      then republish dispatcher job user_id
      else create_child s dispatcher job user_id batch_size
