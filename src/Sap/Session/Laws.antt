-- ===== src/Sap/Session/Laws.antt =====
-- Where the worker's session and the row agree on the cancellation, and where they do not.
use proyecto.Common.{◌≡◌, ◌≢◌, refl, none, arith, All, ◌⊎◌}
use proyecto.Common.Counting.{Holds, count-All}
use proyecto.Jobs.Model.{Time, JobStatus, Job, is_finished}
use proyecto.Jobs.Invariant.{IsConsistent}
use proyecto.Jobs.Progress.{refreshed}
use proyecto.Sap.Session.{refresh, refresh_status, refresh_in_session}

-- A session that holds the row as it is refreshes it as a new session would.
pub refresh_in_session_fresh :
    (now : Time) (row : Job) → refresh_in_session now (refresh row) row ≡ refreshed now row
unfolding refresh_in_session refreshed
refresh_in_session_fresh now row = refl

-- A cancellation that is requested after the worker has claimed its batch, which then is the last
-- to finish: the session holds the job as it was before the request, `before`, with its status read
-- again. The job then ends as completed, failed or completed with errors, and never as cancelled,
-- although its cancellation stands in the row.
pub refresh_in_session_misses_cancel :
    (now : Time) (before row : Job)
    → IsConsistent row
    → All (Holds is_finished) row.batches
    → before.total_batches ≡ row.total_batches
    → before.cancel_requested_at ≡ none
    → row.cancel_requested_at ≢ none
    → let after = refresh_in_session now (refresh_status row (refresh before)) row in
      ((after.status ≡ JobStatus.completed)
        ⊎ (after.status ≡ JobStatus.failed)
        ⊎ (after.status ≡ JobStatus.completed_with_errors))
      × (after.cancel_requested_at ≢ none)
      × ((refreshed now row).status ≡ JobStatus.cancelled)
unfolding refresh_in_session refreshed
refresh_in_session_misses_cancel now before row c done total early late =
    let all_done = count-All is_finished row.batches done in
    (ground (arith, c, all_done), ground (arith, c, all_done), ground (arith, c, all_done))
