-- ===== src/Sap/Task/Laws.antt =====
-- What the Celery task leaves of a batch.
use proyecto.Common.{ℕ, ◌≤◌, ◌≡◌, refl, true, inl, inr, List, String, arith, leb, Bool-cases}
use mathlib.Core.Path.{subst, sym}
use proyecto.Jobs.Model.{Uuid, JobBatchStatus, JobBatch, is_terminal_batch}
use proyecto.Jobs.Invariant.{IsSound}
use proyecto.Sap.World.{World, SapError, request, authentication, connection, timeout, unexpected}
use proyecto.Sap.Rows.{mark_retrying, mark_failed}
use proyecto.Sap.Rows.Laws.{mark_retrying-IsSound, mark_failed-IsSound, mark_failed_ended}
use proyecto.Sap.Process.{
  Run, Answer, not_found, stale_task, not_claimed, status, raised, process_row,
}
use proyecto.Sap.Process.Laws.{Tells, process_row-IsRight}
use proyecto.Sap.Task.{
  TaskEnd, done, failure, again, TaskRun, handle_error, handle_answer, process_sap_batch,
  retry_countdown, max_retries, batch_timeout_message,
}

-- The wait before another try never passes the limit.
pub retry_countdown-le :
    (retries max_seconds : ℕ) → retry_countdown retries max_seconds ≤ max_seconds
unfolding retry_countdown
retry_countdown-le retries max_seconds = omega arith

-- How the task ends, and the batch with it.
abbrev pub Settles : JobBatch → TaskEnd → Answer → Type 0
Settles b done stale_task = Unit
Settles b done not_claimed = Unit
Settles b done not_found = Unit
Settles b done a = is_terminal_batch b.status ≡ true
Settles b failure a = is_terminal_batch b.status ≡ true
Settles b (again seconds) a = (b.status ≡ JobBatchStatus.retrying) × (seconds ≤ 300)

module _ (w : World) (retries : ℕ) where
  abbrev IsSettled : TaskRun → Answer → Type 0
  IsSettled t a = IsSound t.batch × Settles t.batch t.outcome a

  failed-settles :
      (b : JobBatch) (text : String)
      → IsSound b
      → IsSound (mark_failed w.now text b)
        × (is_terminal_batch (mark_failed w.now text b).status ≡ true)
  failed-settles b text s = (mark_failed-IsSound w.now text b s, mark_failed_ended w.now text b)

  status-mark_retrying :
      (b : JobBatch) (text : String) → (mark_retrying w.now text b).status ≡ JobBatchStatus.retrying
  unfolding mark_retrying
  status-mark_retrying b text = refl

  handle_error-settles :
      (b : JobBatch) (calls : List String) (e : SapError) (a : Answer)
      → IsSound b
      → IsSettled (handle_error w retries b calls e) a
  handle_error-settles b calls connection a s = elim (Bool-cases (leb max_retries retries)) [
    | inl last ↦ rw last (failed-settles b "SAP no responde; el lote sera reintentado" s)
    | inr more ↦ rw more (
      mark_retrying-IsSound w.now "SAP no responde; el lote sera reintentado" b s.counted,
      (
        status-mark_retrying b "SAP no responde; el lote sera reintentado",
        retry_countdown-le retries 300,
      ),
    )
  ]
  handle_error-settles b calls timeout a s = failed-settles b batch_timeout_message s
  handle_error-settles b calls (request code text) a s =
      failed-settles b "Error inesperado durante el procesamiento" s
  handle_error-settles b calls (authentication text) a s =
      failed-settles b "Error inesperado durante el procesamiento" s
  handle_error-settles b calls unexpected a s =
      failed-settles b "Error inesperado durante el procesamiento" s

  handle_answer-settles :
      (run : Run) (a : Answer)
      → IsSound run.batch
      → Tells run.batch a
      → IsSettled (handle_answer w retries run a) a
  handle_answer-settles run not_found s t = (s, tt)
  handle_answer-settles run stale_task s t = (s, tt)
  handle_answer-settles run not_claimed s t = (s, tt)
  handle_answer-settles run (status x) s t =
      (s, subst (λ y. is_terminal_batch y ≡ true) (sym t.0) t.1)
  handle_answer-settles run (raised e) s t = handle_error-settles run.batch run.calls e (raised e) s

-- Whatever the database and SAP answer, a task that takes a sound batch never leaves it as running: the
-- batch ends, or waits for another try within 300 seconds; and it is sound. A task that is stale, or
-- that another took, ends without.
pub process_sap_batch-Settles :
    (w : World) (retries : ℕ) (task_id : Uuid) (batch : JobBatch)
    → IsSound batch
    → let t = process_sap_batch w retries task_id batch in
      IsSound t.batch × Settles t.batch t.outcome (process_row w task_id batch).answer
unfolding process_sap_batch
process_sap_batch-Settles w retries task_id batch s =
    let run = process_row w task_id batch in
    let (sound, tells) = process_row-IsRight w task_id batch s in
    handle_answer-settles w retries run run.answer sound tells
