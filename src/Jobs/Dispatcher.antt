-- ===== src/Jobs/Dispatcher.antt =====
-- app/workers/dispatcher.py: publishing the batches of a job to the message broker, with
-- `JOB_MODULES` of app/api/jobs/constants.py and `get_sap_item_handler` of app/api/sap/handlers.
pub mod Laws
pub mod Rows
use Prim.Native.String.{◌++◌}
use proyecto.Common.{
  ℕ, ◌+◌, String, Bool, true, false, Option, none, some, List, [], ◌∷◌, leb, if◌then◌else◌,
}
use proyecto.Core.Errors.{
  Error, validation, value_error, broker, module_disabled, Result, ok, err, Exec,
}
use proyecto.Core.Modules.{Switches, require_module}
use proyecto.Jobs.Model.{
  Uuid, JobType, job_type_value, sap_document_action, sap_reconciliation, payment_provider_email,
  ledger_sync, ledger_sync_delta, ledger_reprocess, analytics_extract, analytics_silver_build,
  other, JobStatus, JobBatchStatus, JobBatch, Job,
}
use proyecto.Jobs.Repository.{Db, get_by_id, put_job, is_dispatchable}

-- The Celery tasks.
pub data Task : Type 0 where
  process_sap_batch process_payment_provider_email_batch process_ledger_batch : Task
  process_analytics_batch process_analytics_silver_batch : Task

pub data Queue : Type 0 where
  light heavy email : Queue

abbrev pub ledger_light_max_items : ℕ
ledger_light_max_items = 1

-- `JOB_TASKS.get(job_type)`
abbrev pub job_task : JobType → Option Task
job_task sap_document_action = some process_sap_batch
job_task sap_reconciliation = some process_sap_batch
job_task payment_provider_email = some process_payment_provider_email_batch
job_task ledger_sync = some process_ledger_batch
job_task ledger_sync_delta = some process_ledger_batch
job_task ledger_reprocess = some process_ledger_batch
job_task analytics_extract = some process_analytics_batch
job_task analytics_silver_build = some process_analytics_silver_batch
job_task (other text) = none

-- `JOB_MODULES.get(job_type)`
abbrev pub job_module : JobType → Option String
job_module sap_document_action = some "sap"
job_module sap_reconciliation = some "sap"
job_module payment_provider_email = some "payment_provider"
job_module ledger_sync = some "ledger"
job_module ledger_sync_delta = some "ledger"
job_module ledger_reprocess = some "ledger"
job_module analytics_extract = some "analytics"
job_module analytics_silver_build = some "analytics"
job_module (other text) = none

abbrev ledger_queue : ℕ → Queue
ledger_queue total_items = if leb total_items ledger_light_max_items then light else heavy

unfoldable pub resolve_job_queue : JobType → ℕ → Queue
resolve_job_queue payment_provider_email total_items = email
resolve_job_queue sap_document_action total_items = heavy
resolve_job_queue sap_reconciliation total_items = heavy
resolve_job_queue ledger_reprocess total_items = heavy
resolve_job_queue analytics_extract total_items = heavy
resolve_job_queue analytics_silver_build total_items = heavy
resolve_job_queue ledger_sync total_items = ledger_queue total_items
resolve_job_queue ledger_sync_delta total_items = ledger_queue total_items
resolve_job_queue (other text) total_items = light

-- `SAP_ITEM_HANDLERS`
pub data SapItemHandler : Type 0 where
  document_action_handler reconciliation_handler : SapItemHandler

unfoldable pub get_sap_item_handler : JobType → Result SapItemHandler
get_sap_item_handler sap_document_action = ok document_action_handler
get_sap_item_handler sap_reconciliation = ok reconciliation_handler
get_sap_item_handler t = err (validation ("Tipo de tarea SAP no soportado: " ++ job_type_value t))

abbrev forget : Result SapItemHandler → Result (Unit {0})
forget (ok handler) = ok tt
forget (err e) = err e

-- the validation of the SAP types only
abbrev pub check_handler : JobType → Result (Unit {0})
check_handler sap_document_action = forget (get_sap_item_handler sap_document_action)
check_handler sap_reconciliation = forget (get_sap_item_handler sap_reconciliation)
check_handler t = ok tt

-- What `apply_async` sends.
pub record Message : Type 0 where
  pub task : Task
  pub batch_id : Uuid
  pub task_id : Uuid
  pub queue : Queue

-- The key that the k-th `uuid4()` makes, and whether the k-th `apply_async` reaches the broker.
pub record BrokerEnv : Type 0 where
  pub task_id : ℕ → Uuid
  pub accepts : ℕ → Bool

abbrev pub queued_batch : BrokerEnv → ℕ → JobBatch → JobBatch
queued_batch env k b = record b {
  celery_task_id = some (env.task_id k);
  status = JobBatchStatus.queued;
}

abbrev pub unpublished_batch : JobBatch → JobBatch
unpublished_batch b = record b { celery_task_id = none; status = JobBatchStatus.pending }

pub record Published : Type 0 where
  pub result : Result (Unit {0})
  pub batches : List JobBatch
  pub messages : List Message

-- The batch, when its message could be sent or not, and then the rest of the loop.
abbrev pub published :
    BrokerEnv → Task → Queue → ℕ → JobBatch → List JobBatch → Published → Published
published env task queue k b bs rest =
    if is_dispatchable b
    then if env.accepts k
      then (record {
        result = rest.result;
        batches = queued_batch env k b ∷ rest.batches;
        messages =
            (record { task = task; batch_id = b.id; task_id = env.task_id k; queue = queue })
            ∷ rest.messages;
      })
      else (record { result = err broker; batches = unpublished_batch b ∷ bs; messages = [] })
    else (record { result = rest.result; batches = b ∷ rest.batches; messages = rest.messages })

-- The loop over the dispatchable batches, read in the order of `sequence`; the others stay. `k` is
-- the number of the round.
unfoldable pub publish_from : BrokerEnv → Task → Queue → ℕ → List JobBatch → Published
publish_from env task queue k [] = record { result = ok tt; batches = []; messages = [] }
publish_from env task queue k (b ∷ bs) =
    let rest = publish_from env task queue (if is_dispatchable b then k + 1 else k) bs in
    published env task queue k b bs rest

abbrev pub Dispatched : Type 0
Dispatched = record { result : Result (Unit {0}); db : Db; messages : List Message }

unfoldable pub publish_job : BrokerEnv → Task → Job → Db → Dispatched
publish_job env task job db =
    let sent =
      publish_from env task (resolve_job_queue job.job_type job.total_items) 0 job.batches in
    record {
      result = sent.result;
      db = put_job (record job { batches = sent.batches }) db;
      messages = sent.messages;
    }

abbrev pub error_text : Error → String
error_text (module_disabled message code reason) = message
error_text _ = ""

-- `except ModuleDisabledError`: the job is cancelled with the reason, and the error goes on.
abbrev pub cancel_disabled : Job → Error → Job
cancel_disabled job e = record job {
  status = JobStatus.cancelled;
  error_summary = some (error_text e);
}

abbrev pub required : Option String → Switches → Result (Unit {0})
required none switches = ok tt
required (some code) switches = require_module code switches

abbrev pub guarded :
    BrokerEnv → Task → Job → Db → Result (Unit {0}) → Result (Unit {0}) → Dispatched
guarded env task job db (err e) handler = record {
  result = err e;
  db = put_job (cancel_disabled job e) db;
  messages = [];
}
guarded env task job db (ok _) (err e) = record { result = err e; db = db; messages = [] }
guarded env task job db (ok _) (ok _) = publish_job env task job db

unfoldable pub dispatch_row : BrokerEnv → Switches → Job → Db → Dispatched
dispatch_row env switches job db = elim (job_task job.job_type) [
  | none ↦ record {
    result = err (value_error ("Tipo de tarea no soportado: " ++ job_type_value job.job_type));
    db = db;
    messages = [];
  }
  | some task ↦
      guarded env task job db (required (job_module job.job_type) switches)
        (check_handler job.job_type)
]

unfoldable pub run_dispatch : BrokerEnv → Switches → Uuid → Db → Dispatched
run_dispatch env switches job_id db = elim (get_by_id job_id db) [
  | none ↦ record { result = err (value_error "Tarea no encontrada"); db = db; messages = [] }
  | some job ↦ dispatch_row env switches job db
]

-- `dispatch_job`, as the callable that `JobService` is given
unfoldable pub dispatch_job : BrokerEnv → Switches → Uuid → Exec Db (Unit {0})
dispatch_job env switches job_id db =
    let sent = run_dispatch env switches job_id db in (sent.result, sent.db)
