-- ===== src/Sap/Process.antt =====
-- `SapJobProcessor.process` (app/api/sap/service/sap_job_service.py).
pub mod Laws
use proyecto.Common.{
  ◌+◌, String, Bool, true, false, not, ◌||◌, Option, none, some, List, [], ◌==◌, if◌then◌else◌,
}
use proyecto.Jobs.Model.{Uuid, JobBatchStatus, JobBatch, is_terminal_batch}
use proyecto.Sap.World.{World, SapError, authentication, is_cancel_requested}
use proyecto.Sap.Rows.{mark_uncertain_items, cancel_pending, fail_pending, finish_batch, claim}
use proyecto.Sap.Items.{Loop, process_items}

-- The answers of `process`, or what it raises.
pub data Answer : Type 0 where
  not_found stale_task not_claimed : Answer
  status : JobBatchStatus → Answer
  raised : SapError → Answer

pub record Run : Type 0 where
  pub batch : JobBatch
  pub calls : List String
  pub answer : Answer

-- After the loop: a cancellation cancels what is pending, otherwise the batch is finished. The
-- session's view of the status is that of the last refresh, so a loop that stopped sees it cancelled.
abbrev pub settled : World → JobBatch → List String → Bool → Run
settled w batch calls stopped =
    let after = if stopped then cancel_pending w.now batch else finish_batch w.now batch in
    record { batch = after; calls = calls; answer = status after.status }

-- The `except` clauses: without a login what is pending fails, and anything else is raised.
abbrev pub after_error : World → JobBatch → List String → SapError → Run
after_error w batch calls (authentication text) =
    settled w (fail_pending w.now text batch) calls false
after_error w batch calls e = record { batch = batch; calls = calls; answer = raised e }

-- The batch with the items and the counters that the loop committed, the last of them
-- `_increment_progress`.
abbrev pub worked : World → JobBatch → Loop → JobBatch
worked w batch loop = record batch {
  items = loop.items;
  succeeded_items = batch.succeeded_items + loop.succeeded;
  failed_items = batch.failed_items + loop.failed;
  heartbeat_at = some w.now;
}

abbrev pub after_loop : World → JobBatch → Loop → Run
after_loop w batch loop = elim loop.raised [
  | none ↦ settled w (worked w batch loop) loop.calls loop.stopped
  | some e ↦ after_error w (worked w batch loop) loop.calls e
]

abbrev pub logged_in : World → JobBatch → Option SapError → Run
logged_in w batch none = after_loop w batch (process_items w 0 batch.items)
logged_in w batch (some e) = after_error w batch [] e

unfoldable pub run_claimed : World → JobBatch → Run
run_claimed w batch =
    if is_cancel_requested w.status_at_start || is_cancel_requested w.status_after_claim
    then settled w batch [] true
    else logged_in w batch w.login

abbrev pub task_matches : JobBatch → Uuid → Bool
task_matches batch task_id = elim batch.celery_task_id [ none ↦ false | some id ↦ id == task_id ]

-- The batch was found, is not stale and has not ended.
unfoldable pub run_open : World → JobBatch → Run
run_open w batch =
    let marked = mark_uncertain_items w.now batch in
    if is_cancel_requested w.loaded_status
    then settled w marked [] true
    else if w.claims
    then run_claimed w (claim w.now marked)
    else (record { batch = marked; calls = []; answer = not_claimed })

-- `process`, on the batch that was found
unfoldable pub process_row : World → Uuid → JobBatch → Run
process_row w task_id batch =
    if not (task_matches batch task_id)
    then (record { batch = batch; calls = []; answer = stale_task })
    else if is_terminal_batch batch.status
    then (record { batch = batch; calls = []; answer = status batch.status })
    else run_open w batch

unfoldable pub process : World → Uuid → Option JobBatch → Answer × Option Run
process w task_id none = (not_found, none)
process w task_id (some batch) = let run = process_row w task_id batch in (run.answer, some run)
