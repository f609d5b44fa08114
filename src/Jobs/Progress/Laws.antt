-- ===== src/Jobs/Progress/Laws.antt =====
-- What `refresh_progress` makes of a job.
use proyecto.Common.{
  ◌+◌, ◌≤◌, ◌<◌, ◌≡◌, ◌≢◌, true, ◌↔◌, inl, inr, none, some, List, arith, ◌==◌, length, count, All,
  count-le-length, Bool-cases,
}
use proyecto.Common.Counting.{Holds, Fails, count-All, All-of-count, none_of-count, count-none}
use proyecto.Jobs.Model.{
  Uuid, Time, JobStatus, JobItem, Job, is_succeeded, is_failed, is_cancelled, is_finished,
  is_terminal_job, job_items,
}
use proyecto.Jobs.Repository.{Db, get_by_id, put_job}
use proyecto.Jobs.Invariant.{IsConsistent, is_processed, processed_count, All-processed}
use proyecto.Jobs.Progress.{refreshed, refresh_progress}

processed_le :
    (items : List JobItem)
    → count is_succeeded items + count is_failed items + count is_cancelled items ≤ length items
processed_le items = omega (arith, processed_count items, count-le-length is_processed items)

-- After `refresh_progress` of a consistent job the processed items are at most the total and the
-- finished batches at most the batches, so the progress stays within 100 %.
pub refreshed_bounds :
    (now : Time) (job : Job)
    → IsConsistent job
    → let after = refreshed now job in
      (after.processed_items ≤ after.total_items) × (after.finished_batches ≤ after.total_batches)
unfolding refreshed
refreshed_bounds now job c =
    ground (arith, c, processed_le (job_items job), count-le-length is_finished job.batches)

-- When every batch of a consistent job has finished, `refresh_progress` gives it a final status and
-- an end, and the processed items are all its items.
pub refreshed_finished :
    (now : Time) (job : Job)
    → IsConsistent job
    → All (Holds is_finished) job.batches
    → let after = refreshed now job in
      (is_terminal_job after.status ≡ true)
      × (after.finished_at ≡ some now)
      × (after.processed_items ≡ after.total_items)
unfolding refreshed
refreshed_finished now job c h = ground (
  arith,
  c,
  count-All is_finished job.batches h,
  processed_count (job_items job),
  count-All is_processed (job_items job) (All-processed job.batches c.sound h),
)

-- While some batch of a consistent job has not finished, `refresh_progress` leaves its status and its
-- end as they were.
pub refreshed_unfinished :
    (now : Time) (job : Job)
    → IsConsistent job
    → ¬ (All (Holds is_finished) job.batches)
    → let after = refreshed now job in
      (after.status ≡ job.status) × (after.finished_at ≡ job.finished_at)
unfolding refreshed
refreshed_unfinished now job c h =
    let open_batch = λ (e : count is_finished job.batches ≡ length job.batches).
      h (All-of-count is_finished job.batches e) in
    ground (arith, c, open_batch)

pub refreshed-IsConsistent :
    (now : Time) (job : Job) → IsConsistent job → IsConsistent (refreshed now job)
unfolding refreshed
refreshed-IsConsistent now job c =
    elim (Bool-cases (count is_finished job.batches == job.total_batches)) [
      | inl finished ↦
          rw finished
            (record { batch_total = c.batch_total; item_total = c.item_total; sound = c.sound })
      | inr open_batches ↦
          rw open_batches
            (record { batch_total = c.batch_total; item_total = c.item_total; sound = c.sound })
    ]

-- How `refresh_progress` ends a consistent job whose batches have all finished: cancelled exactly when
-- a cancellation was requested; and without one, completed exactly when no item failed, failed exactly
-- when some item failed and none succeeded, and completed with errors exactly when some failed and some
-- succeeded.
pub refreshed_outcome :
    (now : Time) (job : Job)
    → IsConsistent job
    → All (Holds is_finished) job.batches
    → let status = (refreshed now job).status in
      let items = job_items job in
      ((status ≡ JobStatus.cancelled) ↔ (job.cancel_requested_at ≢ none))
      × ((status ≡ JobStatus.completed)
          ↔ ((job.cancel_requested_at ≡ none) × All (Fails is_failed) items))
      × ((status ≡ JobStatus.failed) ↔ (
          (job.cancel_requested_at ≡ none)
          × (0 < count is_failed items)
          × All (Fails is_succeeded) items))
      × ((status ≡ JobStatus.completed_with_errors) ↔ (
          (job.cancel_requested_at ≡ none)
          × (0 < count is_failed items)
          × (0 < count is_succeeded items)))
unfolding refreshed
refreshed_outcome now job c h =
    let all_done = count-All is_finished job.batches h in
    let items = job_items job in
    (
      (ground (arith, c, all_done), ground (arith, c, all_done)),
      (
        λ e. (
          ground (arith, c, all_done),
          none_of-count is_failed items (ground (arith, c, all_done)),
        ),
        λ clean. ground (arith, c, all_done, clean.0, count-none is_failed items clean.1),
      ),
      (
        λ e. (
          ground (arith, c, all_done),
          ground (arith, c, all_done),
          none_of-count is_succeeded items (ground (arith, c, all_done)),
        ),
        λ bad. ground (arith, c, all_done, bad.0, bad.1, count-none is_succeeded items bad.2),
      ),
      (
        λ e.
            (ground (arith, c, all_done), ground (arith, c, all_done), ground (arith, c, all_done)),
        λ mixed. ground (arith, c, all_done),
      ),
    )

-- On a database the job is read, refreshed and written back.
pub refresh_progress_found :
    (now : Time) (id : Uuid) (db : Db) (job : Job)
    → get_by_id id db ≡ some job
    → refresh_progress now id db ≡ put_job (refreshed now job) db
unfolding refresh_progress
refresh_progress_found now id db job h = rw (h, refresh_progress)

pub id-refreshed : (now : Time) (job : Job) → (refreshed now job).id ≡ job.id
unfolding refreshed
id-refreshed now job = ground arith
