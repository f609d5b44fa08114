-- ===== src/Sap/Items.antt =====
-- `_process_item` and the loop over the items of a batch, of `SapJobProcessor.process`
-- (app/api/sap/service/sap_job_service.py).
pub mod Laws
use proyecto.Common.{
  ℕ, ◌+◌, String, Bool, true, false, Option, none, some, List, [], ◌∷◌, if◌then◌else◌,
}
use proyecto.Common.Value.{Value, Dict}
use proyecto.Jobs.Model.{Time, JobItemStatus, JobItem, is_pending, is_succeeded, is_failed}
use proyecto.Sap.World.{World, SapError, request, connection, is_cancel_requested}

-- `_process_item`: the item after the answer of SAP, and what is raised further.
unfoldable pub processed_item : Time → JobItem → Option SapError → JobItem × Option SapError
processed_item now item none = (
  record item {
    status = JobItemStatus.succeeded;
    attempts = item.attempts + 1;
    started_at = some now;
    external_status_code = some 200;
    result_data = some (Value.dict (Dict.entry "completed" (Value.bool true) Dict.empty));
    safe_error = none;
    finished_at = some now;
  },
  none,
)
processed_item now item (some (request code text)) = (
  record item {
    status = JobItemStatus.failed;
    attempts = item.attempts + 1;
    started_at = some now;
    external_status_code = some code;
    safe_error = some text;
    finished_at = some now;
  },
  none,
)
processed_item now item (some connection) = (
  record item { status = JobItemStatus.pending; attempts = item.attempts + 1; started_at = none },
  some connection,
)
processed_item now item (some e) = (
  record item {
    status = JobItemStatus.running;
    attempts = item.attempts + 1;
    started_at = some now;
  },
  some e,
)

-- The loop over the items, from the k-th refresh and the k-th call on: the items after it, the
-- references that were sent to SAP in order, what was raised, and whether it stopped at a
-- cancellation.
pub record Loop : Type 0 where
  pub items : List JobItem
  pub calls : List String
  pub succeeded : ℕ
  pub failed : ℕ
  pub raised : Option SapError
  pub stopped : Bool

abbrev pub no_work : List JobItem → Loop
no_work items = record {
  items = items;
  calls = [];
  succeeded = 0;
  failed = 0;
  raised = none;
  stopped = false;
}

abbrev pub after_call : JobItem → JobItem × Option SapError → List JobItem → Loop → Loop
after_call item (done, none) items rest = record {
  items = done ∷ rest.items;
  calls = item.reference ∷ rest.calls;
  succeeded = (if is_succeeded done then 1 else 0) + rest.succeeded;
  failed = (if is_failed done then 1 else 0) + rest.failed;
  raised = rest.raised;
  stopped = rest.stopped;
}
after_call item (done, some e) items rest = record {
  items = done ∷ items;
  calls = item.reference ∷ [];
  succeeded = 0;
  failed = 0;
  raised = some e;
  stopped = false;
}

abbrev pub loop_step : World → ℕ → JobItem → List JobItem → Loop → Loop
loop_step w k item items rest =
    if is_pending item
    then if is_cancel_requested (w.observed k)
      then (record (no_work (item ∷ items)) { stopped = true })
      else after_call item (processed_item w.now item (w.answer k)) items rest
    else (record rest { items = item ∷ rest.items })

unfoldable pub process_items : World → ℕ → List JobItem → Loop
unfolding processed_item
process_items w k [] = no_work []
process_items w k (item ∷ items) =
    let rest = process_items w (if is_pending item then k + 1 else k) items in
    loop_step w k item items rest
