-- ===== src/Sap/Session.antt =====
-- `JobService(self.db).refresh_progress` as the worker calls it, in its own session.
-- The sessions of app/core/db/session.py do not expire what they hold after a commit, and `first()`
-- gives back the job that the session holds already: of its columns only those that a `refresh`
-- names are read again. After the claim `process` refreshes the whole job once, and then only
-- `status` (app/api/sap/service/sap_job_service.py, app/api/jobs/service.py).
pub mod Laws
use proyecto.Common.{ℕ, Option, none, some, ◌==◌, if◌then◌else◌, ◌+◌, count}
use proyecto.Jobs.Model.{
  Time, JobStatus, Job, JobBatch, is_succeeded, is_failed, is_cancelled, is_finished, job_items,
}
use proyecto.Jobs.Progress.{set_counters, final_status}

-- What the worker's session holds of the job: the columns that `refresh_progress` reads there.
pub record HeldJob : Type 0 where
  pub total_batches : ℕ
  pub cancel_requested_at : Option Time
  pub status : JobStatus

-- `self.db.refresh(batch.job)`
abbrev pub refresh : Job → HeldJob
refresh row = record {
  total_batches = row.total_batches;
  cancel_requested_at = row.cancel_requested_at;
  status = row.status;
}

-- `self.db.refresh(batch.job, attribute_names=["status"])`
abbrev pub refresh_status : Job → HeldJob → HeldJob
refresh_status row held = record held { status = row.status }

-- The row after `refresh_progress`: the counters come from queries, the rest from the session, and
-- only the columns that the session assigned are written.
unfoldable pub refresh_in_session : Time → HeldJob → Job → Job
unfolding set_counters final_status
refresh_in_session now held row =
    let counted = set_counters row in
    if counted.finished_batches == held.total_batches
    then (record counted {
      finished_at = some now;
      status = final_status (record counted { cancel_requested_at = held.cancel_requested_at });
    })
    else counted
