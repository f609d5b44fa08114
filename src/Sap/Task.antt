-- ===== src/Sap/Task.antt =====
-- The Celery task around the processor: app/workers/sap_tasks.py and app/workers/common.py.
pub mod Laws
pub mod Kept
pub mod Tries
pub mod Once
use proyecto.Common.{ℕ, ◌*◌, ◌^◌, min, String, List, leb, if◌then◌else◌}
use proyecto.Jobs.Model.{Uuid, JobBatch}
use proyecto.Sap.World.{World, SapError, connection, timeout}
use proyecto.Sap.Rows.{mark_retrying, mark_failed}
use proyecto.Sap.Process.{Run, Answer, raised, process_row}

-- `retry_countdown` of app/workers/common.py
unfoldable pub retry_countdown : ℕ → ℕ → ℕ
retry_countdown retries max_seconds = min (30 * 2 ^ retries) max_seconds

abbrev pub max_retries : ℕ
max_retries = 3

abbrev pub batch_timeout_message : String
batch_timeout_message = "El lote excedio el tiempo permitido"

-- What Celery does next: the task is done, is raised as failed, or runs again after some seconds.
pub data TaskEnd : Type 0 where
  done failure : TaskEnd
  again : ℕ → TaskEnd

pub record TaskRun : Type 0 where
  pub batch : JobBatch
  pub calls : List String
  pub outcome : TaskEnd

abbrev pub handle_error : World → ℕ → JobBatch → List String → SapError → TaskRun
handle_error w retries batch calls connection =
    if leb max_retries retries
    then (record {
      batch = mark_failed w.now "SAP no responde; el lote sera reintentado" batch;
      calls = calls;
      outcome = failure;
    })
    else (record {
      batch = mark_retrying w.now "SAP no responde; el lote sera reintentado" batch;
      calls = calls;
      outcome = again (retry_countdown retries 300);
    })
handle_error w retries batch calls timeout = record {
  batch = mark_failed w.now batch_timeout_message batch;
  calls = calls;
  outcome = failure;
}
handle_error w retries batch calls e = record {
  batch = mark_failed w.now "Error inesperado durante el procesamiento" batch;
  calls = calls;
  outcome = failure;
}

abbrev pub handle_answer : World → ℕ → Run → Answer → TaskRun
handle_answer w retries run (raised e) = handle_error w retries run.batch run.calls e
handle_answer w retries run a = record { batch = run.batch; calls = run.calls; outcome = done }

-- `process_sap_batch`, on the batch that was found
unfoldable pub process_sap_batch : World → ℕ → Uuid → JobBatch → TaskRun
process_sap_batch w retries task_id batch =
    let run = process_row w task_id batch in handle_answer w retries run run.answer
