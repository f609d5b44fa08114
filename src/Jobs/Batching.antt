-- ===== src/Jobs/Batching.antt =====
-- How `JobService.create_job` cuts the references of a job into batches: `list(dict.fromkeys(...))`,
-- `chunked`, and the rows that it builds (app/api/jobs/service.py).
pub mod Laws
use proyecto.Common.{
  ℕ, zero, suc, ◌+◌, String, Bool, true, false, ◌||◌, Option, none, some, List, [], ◌∷◌, map,
  str_eq, ltb, if◌then◌else◌, length, take, drop, any,
}
use proyecto.Common.Value.{Value}
use proyecto.Jobs.Model.{Uuid, JobBatchStatus, JobItemStatus, JobItem, JobBatch}

abbrev pub contains : List String → String → Bool
contains [] ref = false
contains (x ∷ xs) ref = str_eq x ref || contains xs ref

-- `seen` holds the keys that the dict has already.
unfoldable pub unseen : List String → List String → List String
unseen seen [] = []
unseen seen (ref ∷ references) = elim (contains seen ref) [
  | true ↦ unseen seen references
  | false ↦ ref ∷ unseen (ref ∷ seen) references
]

-- `list(dict.fromkeys(references))`: each reference once, where it first stands
unfoldable pub from_keys : List String → List String
unfolding unseen
from_keys references = unseen [] references

-- The rounds of `for index in range(0, len(items), size)`; the fuel is at least their number.
unfoldable pub chunks_from : ℕ → ℕ → List String → ℕ → List (List String)
chunks_from zero index items size = []
chunks_from (suc rounds) index items size =
    let rest = chunks_from rounds (index + size) items size in
    if ltb index (length items) then take size (drop index items) ∷ rest else []

unfoldable pub chunked : List String → ℕ → List (List String)
unfolding chunks_from
chunked items size = chunks_from (length items) 0 items size

abbrev pub payload_for : List (String × Value) → String → Option Value
payload_for [] ref = none
payload_for ((key, payload) ∷ rows) ref =
    let found = payload_for rows ref in if str_eq key ref then some payload else found

-- `if item_payloads: item.result_data = item_payloads.get(reference)`; no payloads are `[]`
unfoldable pub new_item : List (String × Value) → String → JobItem
new_item item_payloads ref = record {
  reference = ref;
  status = JobItemStatus.pending;
  attempts = 0;
  external_status_code = none;
  result_data = payload_for item_payloads ref;
  safe_error = none;
  started_at = none;
  finished_at = none;
}

unfoldable pub new_batch : (ℕ → Uuid) → List (String × Value) → ℕ → List String → JobBatch
unfolding new_item
new_batch batch_id item_payloads sequence references_chunk = record {
  id = batch_id sequence;
  sequence = sequence;
  status = JobBatchStatus.pending;
  celery_task_id = none;
  attempts = 0;
  total_items = length references_chunk;
  succeeded_items = 0;
  failed_items = 0;
  cancelled_items = 0;
  started_at = none;
  finished_at = none;
  heartbeat_at = none;
  error_summary = none;
  items = map (new_item item_payloads) references_chunk;
}

-- `for sequence, references_chunk in enumerate(chunks, start=sequence)`
unfoldable pub build_batches :
    (ℕ → Uuid) → List (String × Value) → ℕ → List (List String) → List JobBatch
unfolding new_batch
build_batches batch_id item_payloads sequence [] = []
build_batches batch_id item_payloads sequence (chunk ∷ chunks) =
    new_batch batch_id item_payloads sequence chunk
    ∷ build_batches batch_id item_payloads (sequence + 1) chunks
