-- ===== src/Sap/Task/Once.antt =====
-- What one try of a batch sends to SAP, and the results that it keeps.
use proyecto.Common.{
  ℕ, String, ◌≡◌, refl, ap, sym, ◌∙◌, List, ◌++◌, arith, leb, Bool-cases, inl, inr,
}
use mathlib.Core.Path.{subst}
use proyecto.Jobs.Model.{Uuid, JobItem, JobBatch}
use proyecto.Sap.World.{World, SapError, request, authentication, connection, timeout, unexpected}
use proyecto.Sap.Items.Laws.{pending_references}
use proyecto.Sap.Process.{
  Run, Answer, not_found, stale_task, not_claimed, status, raised, process_row,
}
use proyecto.Sap.Task.{
  handle_error, handle_answer, process_sap_batch, max_retries, batch_timeout_message,
}
use proyecto.Sap.Task.Kept.{
  AllKept, kept_trans, kept_retrying, kept_failed, NoneResent, marked_kept, resent_marked,
  resent_self,
}
use proyecto.Sap.Task.Tries.{IsOnce, process_row-IsOnce, IsMarked, process_row-IsMarked}

module _ (w : World) (retries : ℕ) where
  kept_handle :
      (b : JobBatch) (calls : List String) (e : SapError)
      → AllKept b.items (handle_error w retries b calls e).batch.items
  kept_handle b calls connection = elim (Bool-cases (leb max_retries retries)) [
    | inl last ↦ rw last (kept_failed w.now "SAP no responde; el lote sera reintentado" b)
    | inr more ↦ rw more (kept_retrying w.now "SAP no responde; el lote sera reintentado" b)
  ]
  kept_handle b calls timeout = kept_failed w.now batch_timeout_message b
  kept_handle b calls (request code text) =
      kept_failed w.now "Error inesperado durante el procesamiento" b
  kept_handle b calls (authentication text) =
      kept_failed w.now "Error inesperado durante el procesamiento" b
  kept_handle b calls unexpected = kept_failed w.now "Error inesperado durante el procesamiento" b

  calls_handle :
      (b : JobBatch) (calls : List String) (e : SapError)
      → (handle_error w retries b calls e).calls ≡ calls
  calls_handle b calls connection = ground arith
  calls_handle b calls timeout = refl
  calls_handle b calls (request code text) = refl
  calls_handle b calls (authentication text) = refl
  calls_handle b calls unexpected = refl

  handled_once :
      (items : List JobItem) (r : Run) (a : Answer)
      → IsOnce items r
      → ((more : List String) × ((handle_answer w retries r a).calls ++ more
            ≡ pending_references items))
        × AllKept items (handle_answer w retries r a).batch.items
  handled_once items r (raised e) ((more, sent), kept) = (
    (more, ap (λ t. t ++ more) (calls_handle r.batch r.calls e) ∙ sent),
    kept_trans items r.batch.items (handle_error w retries r.batch r.calls e).batch.items kept
        (kept_handle r.batch r.calls e),
  )
  handled_once items r not_found o = o
  handled_once items r stale_task o = o
  handled_once items r not_claimed o = o
  handled_once items r (status s) o = o

  unmarked : (items : List JobItem) (b : JobBatch) → b.items ≡ items → NoneResent items b.items
  unmarked items b e = subst (λ t. NoneResent items t) (sym e) (resent_self items)

  handled_resent :
      (items : List JobItem) (r : Run) (a : Answer)
      → IsMarked items r a
      → NoneResent items (handle_answer w retries r a).batch.items
  handled_resent items r (raised e) (inl (quiet, same)) = absurd (ground (arith, quiet))
  handled_resent items r (raised e) (inr marked) =
      let handled = handle_error w retries r.batch r.calls e in
      resent_marked items handled.batch.items
        (marked_kept items r.batch.items handled.batch.items marked (kept_handle r.batch r.calls e))
  handled_resent items r not_found (inl (_, same)) = unmarked items r.batch same
  handled_resent items r not_found (inr marked) = resent_marked items r.batch.items marked
  handled_resent items r stale_task (inl (_, same)) = unmarked items r.batch same
  handled_resent items r stale_task (inr marked) = resent_marked items r.batch.items marked
  handled_resent items r not_claimed (inl (_, same)) = unmarked items r.batch same
  handled_resent items r not_claimed (inr marked) = resent_marked items r.batch.items marked
  handled_resent items r (status s) (inl (_, same)) = unmarked items r.batch same
  handled_resent items r (status s) (inr marked) = resent_marked items r.batch.items marked

-- One try of a batch, whatever the database and SAP answer: what is sent to SAP are items that were
-- pending, in order and each at most once; every item that has a result already, succeeded, failed or
-- cancelled, keeps it; and an item that an interrupted worker left under way is not pending after the
-- try, so that neither this try nor a later one sends it.
pub process_sap_batch-once :
    (w : World) (retries : ℕ) (task_id : Uuid) (batch : JobBatch)
    → let t = process_sap_batch w retries task_id batch in
      ((more : List String) × (t.calls ++ more ≡ pending_references batch.items))
      × AllKept batch.items t.batch.items
      × NoneResent batch.items t.batch.items
unfolding process_sap_batch
process_sap_batch-once w retries task_id batch =
    let run = process_row w task_id batch in
    let (sent, kept) =
      handled_once w retries batch.items run run.answer (process_row-IsOnce w task_id batch) in
    (
      sent,
      kept,
      handled_resent w retries batch.items run run.answer (process_row-IsMarked w task_id batch),
    )
