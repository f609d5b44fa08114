-- ===== src/Sap/Tests.antt =====
-- A batch of three items under a worker that was interrupted once, and what its next try does.
use proyecto.Common.{
  ◌≡◌, ◌≢◌, ◌⊎◌, refl, String, true, none, some, List, [], ◌∷◌, ◌++◌, ◌==◌, if◌then◌else◌,
}
use proyecto.Jobs.Model.{JobStatus, JobBatchStatus, JobItemStatus, JobItem, JobBatch, Job}
use proyecto.Jobs.Fixtures.{item_in, batch_in, job_of}
use proyecto.Jobs.Invariant.{IsSound, IsConsistent}
use proyecto.Jobs.Progress.{refreshed}
use proyecto.Sap.World.{World, connection}
use proyecto.Sap.Rows.{mark_uncertain_items, claim, mark_retrying}
use proyecto.Sap.Items.{process_items, processed_item}
use proyecto.Sap.Items.Laws.{pending_references}
use proyecto.Sap.Process.{process_row, run_open, run_claimed}
use proyecto.Sap.Task.{again, process_sap_batch, retry_countdown}
use proyecto.Sap.Task.Laws.{Settles, process_sap_batch-Settles}
use proyecto.Sap.Task.Kept.{AllKept, NoneResent}
use proyecto.Sap.Task.Once.{process_sap_batch-once}
use proyecto.Sap.Session.{refresh, refresh_status, refresh_in_session}
use proyecto.Sap.Session.Laws.{refresh_in_session_misses_cancel}

-- SAP answers the first call and is gone at the second.
abbrev world : World
world = record {
  now = 90;
  claims = true;
  loaded_status = JobStatus.running;
  status_at_start = JobStatus.running;
  status_after_claim = JobStatus.running;
  observed = λ k. JobStatus.running;
  login = none;
  answer = λ k. if k == 0 then none else some connection;
}

abbrev named : String → JobItemStatus → JobItem
named text status = record (item_in status) { reference = text }

-- One item was under way when the worker stopped.
abbrev interrupted : JobBatch
interrupted =
    record (batch_in JobBatchStatus.running (
      named "10" JobItemStatus.running
      ∷ named "20" JobItemStatus.pending
      ∷ named "30" JobItemStatus.pending
      ∷ [])) { total_items = 3 }

interrupted-IsSound : IsSound interrupted
interrupted-IsSound = record {
  counted = refl;
  fits = ((λ h. cc, λ h. cc), ((λ h. cc, λ h. cc), ((λ h. cc, λ h. cc), tt)));
}

-- The interrupted item is not sent again, and the batch waits for the third to be tried again.
process_sap_batch_run :
    ((process_sap_batch world 0 500 interrupted).calls ≡ "20" ∷ "30" ∷ [])
    × ((process_sap_batch world 0 500 interrupted).outcome ≡ again 30)
    × (pending_references (process_sap_batch world 0 500 interrupted).batch.items ≡ "30" ∷ [])
unfolding process_sap_batch process_row run_open run_claimed mark_uncertain_items claim
    process_items processed_item mark_retrying retry_countdown
process_sap_batch_run = (refl, refl, refl)

process_sap_batch-Settles_example :
    let t = process_sap_batch world 0 500 interrupted in
    IsSound t.batch × Settles t.batch t.outcome (process_row world 500 interrupted).answer
process_sap_batch-Settles_example =
    process_sap_batch-Settles world 0 500 interrupted interrupted-IsSound

process_sap_batch-once_example :
    let t = process_sap_batch world 0 500 interrupted in
    ((more : List String) × (t.calls ++ more ≡ pending_references interrupted.items))
    × AllKept interrupted.items t.batch.items
    × NoneResent interrupted.items t.batch.items
process_sap_batch-once_example = process_sap_batch-once world 0 500 interrupted

-- The row of a job after its cancellation was requested and its only batch has ended.
abbrev before_request : Job
before_request = job_of (
    batch_in JobBatchStatus.running
      (item_in JobItemStatus.running ∷ item_in JobItemStatus.pending ∷ []))

abbrev row_at_end : Job
row_at_end =
    record (job_of (
      batch_in JobBatchStatus.completed
        (item_in JobItemStatus.succeeded ∷ item_in JobItemStatus.succeeded ∷ []))) {
          status = JobStatus.cancel_requested;
          cancel_requested_at = some 80;
        }

row_at_end-IsConsistent : IsConsistent row_at_end
row_at_end-IsConsistent = record {
  batch_total = refl;
  item_total = refl;
  sound = (
    record { counted = refl; fits = ((λ _. refl, λ _. refl), ((λ _. refl, λ _. refl), tt)) },
    tt,
  );
}

refresh_in_session_misses_cancel_example :
    let after =
      refresh_in_session 90 (refresh_status row_at_end (refresh before_request)) row_at_end in
    ((after.status ≡ JobStatus.completed)
      ⊎ (after.status ≡ JobStatus.failed)
      ⊎ (after.status ≡ JobStatus.completed_with_errors))
    × (after.cancel_requested_at ≢ none)
    × ((refreshed 90 row_at_end).status ≡ JobStatus.cancelled)
refresh_in_session_misses_cancel_example =
    refresh_in_session_misses_cancel 90 before_request row_at_end row_at_end-IsConsistent (refl, tt)
      refl refl (λ h. cc)
