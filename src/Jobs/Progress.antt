-- ===== src/Jobs/Progress.antt =====
-- `JobService.refresh_progress` of app/api/jobs/service.py.
pub mod Laws
mod Tests
use proyecto.Common.{
  ◌+◌, Bool, true, false, Option, none, some, ◌==◌, ltb, ◌&&◌, if◌then◌else◌, count,
}
use proyecto.Jobs.Model.{
  Uuid, Time, JobStatus, Job, is_succeeded, is_failed, is_cancelled, is_finished, job_items,
}
use proyecto.Jobs.Repository.{Db, get_by_id, put_job}

-- The counters, from the rows of the items and of the batches.
unfoldable pub set_counters : Job → Job
set_counters job =
    let items = job_items job in
    let succeeded = count is_succeeded items in
    let failed = count is_failed items in
    let cancelled = count is_cancelled items in
    record job {
      succeeded_items = succeeded;
      failed_items = failed;
      cancelled_items = cancelled;
      processed_items = succeeded + failed + cancelled;
      finished_batches = count is_finished job.batches;
    }

abbrev is_set : Option Time → Bool
is_set none = false
is_set (some t) = true

-- The status of a job whose batches have all finished.
unfoldable pub final_status : Job → JobStatus
final_status job =
    if is_set job.cancel_requested_at
    then JobStatus.cancelled
    else if ltb 0 job.failed_items && ltb 0 job.succeeded_items
    then JobStatus.completed_with_errors
    else if ltb 0 job.failed_items
    then JobStatus.failed
    else JobStatus.completed

unfoldable pub refreshed : Time → Job → Job
unfolding set_counters final_status
refreshed now job =
    let job' = set_counters job in
    if job'.finished_batches == job'.total_batches
    then record job' { finished_at = some now; status = final_status job' }
    else job'

unfoldable pub refresh_progress : Time → Uuid → Db → Db
unfolding refreshed get_by_id put_job
refresh_progress now job_id db = elim (get_by_id job_id db) [
  | none ↦ db
  | some job ↦ put_job (refreshed now job) db
]
