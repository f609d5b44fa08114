-- ===== src/Jobs/Cancel.antt =====
-- `JobService.cancel_job` of app/api/jobs/service.py. `_revoke_tasks` only tells the broker to drop
-- messages, and any error of it is swallowed: it changes no row and is left out.
pub mod Laws
pub mod Effect
use proyecto.Common.{
  ℕ, Bool, true, false, Option, none, some, List, [], ◌∷◌, map, if◌then◌else◌, count,
}
use proyecto.Core.Errors.{Result, Error, conflict, Exec, ◌>>=◌, ◌>>◌, refuse_if, modify}
use proyecto.Jobs.Model.{
  Uuid, Time, JobStatus, JobBatchStatus, JobItemStatus, JobItem, JobBatch, Job, is_terminal_job,
  is_pending, is_succeeded, is_failed, is_cancelled,
}
use proyecto.Jobs.Repository.{Db, put_job}
use proyecto.Jobs.Progress.{refresh_progress}
use proyecto.Jobs.Service.{get_job}

unfoldable pub cancel_item : Time → JobItem → JobItem
cancel_item now item =
    if is_pending item
    then record item { status = JobItemStatus.cancelled; finished_at = some now }
    else item

-- `batch.succeeded_items = statuses.count(...)` and its two neighbours
unfoldable pub set_batch_counts : JobBatch → JobBatch
set_batch_counts batch = record batch {
  succeeded_items = count is_succeeded batch.items;
  failed_items = count is_failed batch.items;
  cancelled_items = count is_cancelled batch.items;
}

abbrev pub is_cancellable : JobBatchStatus → Bool
is_cancellable JobBatchStatus.pending = true
is_cancellable JobBatchStatus.queued = true
is_cancellable JobBatchStatus.retrying = true
is_cancellable _ = false

unfoldable pub cancel_batch : Time → JobBatch → JobBatch
unfolding cancel_item set_batch_counts
cancel_batch now batch =
    if is_cancellable batch.status
    then set_batch_counts (record batch {
      status = JobBatchStatus.cancelled;
      finished_at = some now;
      items = map (cancel_item now) batch.items;
    })
    else batch

unfoldable pub request_cancel : Time → Uuid → Job → Job
unfolding cancel_batch
request_cancel now user_id job = record job {
  status = JobStatus.cancel_requested;
  cancel_requested_at = some now;
  updated_by = some user_id;
  batches = map (cancel_batch now) job.batches;
}

unfoldable pub cancel_job : Time → Uuid → Uuid → Bool → Exec Db Job
cancel_job now job_id user_id can_cancel_all = do
  job ← get_job job_id user_id can_cancel_all
  refuse_if (is_terminal_job job.status) (conflict "La tarea ya se encuentra finalizada")
  modify (put_job (request_cancel now user_id job))
  modify (refresh_progress now job.id)
  get_job job.id user_id true
