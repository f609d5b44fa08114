-- ===== src/Sap/Rows.antt =====
-- How `SapJobProcessor` writes the rows of a batch (app/api/sap/service/sap_job_service.py).
pub mod Laws
use proyecto.Common.{◌+◌, String, Bool, true, false, ◌||◌, none, some, map, leb, if◌then◌else◌}
use proyecto.Jobs.Model.{
  Time, JobBatchStatus, JobItemStatus, JobItem, JobBatch, is_pending, is_running,
}
use proyecto.Jobs.Cancel.{cancel_item, set_batch_counts}

-- `_mark_uncertain_items`
abbrev pub uncertain_item : Time → JobItem → JobItem
uncertain_item now item =
    if is_running item
    then (record item {
      status = JobItemStatus.failed;
      safe_error = some "Resultado incierto tras interrupcion; requiere revision";
      finished_at = some now;
    })
    else item

unfoldable pub mark_uncertain_items : Time → JobBatch → JobBatch
mark_uncertain_items now batch = record batch { items = map (uncertain_item now) batch.items }

-- `_cancel_pending`, up to the refresh of the progress
unfoldable pub cancel_pending : Time → JobBatch → JobBatch
unfolding cancel_item set_batch_counts
cancel_pending now batch = set_batch_counts (record batch {
  items = map (cancel_item now) batch.items;
  status = JobBatchStatus.cancelled;
  finished_at = some now;
})

abbrev pub fail_item : Time → String → JobItem → JobItem
fail_item now error item =
    if is_pending item || is_running item
    then (record item {
      status = JobItemStatus.failed;
      safe_error = some error;
      finished_at = some now;
    })
    else item

-- `_fail_pending`
unfoldable pub fail_pending : Time → String → JobBatch → JobBatch
unfolding set_batch_counts
fail_pending now error batch =
    set_batch_counts (record batch { items = map (fail_item now error) batch.items })

-- `_finish_batch`, up to the refresh of the progress
unfoldable pub finish_batch : Time → JobBatch → JobBatch
unfolding set_batch_counts
finish_batch now batch =
    let counted = set_batch_counts batch in
    record counted {
      status =
          (if leb counted.failed_items 0
            then JobBatchStatus.completed
            else JobBatchStatus.completed_with_errors);
      finished_at = some now;
      heartbeat_at = some now;
      error_summary = none;
    }

-- The UPDATE that claims the batch.
unfoldable pub claim : Time → JobBatch → JobBatch
claim now batch = record batch {
  status = JobBatchStatus.running;
  attempts = batch.attempts + 1;
  started_at = elim batch.started_at [ none ↦ some now | some t ↦ some t ];
  heartbeat_at = some now;
}

-- `mark_retrying`
abbrev pub reset_item : JobItem → JobItem
reset_item item =
    if is_running item
    then (record item { status = JobItemStatus.pending; safe_error = none; started_at = none })
    else item

unfoldable pub mark_retrying : Time → String → JobBatch → JobBatch
mark_retrying now error batch = record batch {
  items = map reset_item batch.items;
  status = JobBatchStatus.retrying;
  error_summary = some error;
  heartbeat_at = some now;
}

abbrev pub keeps_result : JobBatchStatus → Bool
keeps_result JobBatchStatus.completed = true
keeps_result JobBatchStatus.completed_with_errors = true
keeps_result JobBatchStatus.cancelled = true
keeps_result _ = false

-- `mark_failed`, up to the refresh of the progress
unfoldable pub mark_failed : Time → String → JobBatch → JobBatch
unfolding fail_pending
mark_failed now error batch =
    if keeps_result batch.status then batch else (record (fail_pending now error batch) {
      status = JobBatchStatus.failed;
      error_summary = some error;
      finished_at = some now;
    })
