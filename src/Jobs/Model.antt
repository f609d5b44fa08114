-- ===== src/Jobs/Model.antt =====
-- app/models/jobs/job_model.py and app/api/jobs/constants.py: the rows of a job, of its batches and
-- of their items. A job holds its batches and a batch its items, as the ORM relations do, so the
-- foreign keys `job_id` and `batch_id` are the nesting. A UUID and an instant are numbers.
use proyecto.Common.{ℕ, String, Bool, true, false, Option, List, gather}
use proyecto.Common.Value.{Value, Dict}

abbrev pub Uuid : Type 0
Uuid = ℕ

abbrev pub Time : Type 0
Time = ℕ

-- `job_type` is a text column: `other` is a text that is no member of the enum.
pub data JobType : Type 0 where
  sap_document_action sap_reconciliation payment_provider_email : JobType
  ledger_sync ledger_sync_delta ledger_reprocess : JobType
  analytics_extract analytics_silver_build : JobType
  other : String → JobType

abbrev pub job_type_value : JobType → String
job_type_value sap_document_action = "SAP_DOCUMENT_ACTION"
job_type_value sap_reconciliation = "SAP_RECONCILIATION"
job_type_value payment_provider_email = "PAYMENT_PROVIDER_EMAIL"
job_type_value ledger_sync = "LEDGER_SYNC"
job_type_value ledger_sync_delta = "LEDGER_SYNC_DELTA"
job_type_value ledger_reprocess = "LEDGER_REPROCESS"
job_type_value analytics_extract = "ANALYTICS_EXTRACT"
job_type_value analytics_silver_build = "ANALYTICS_SILVER_BUILD"
job_type_value (other text) = text

pub data JobTriggerSource : Type 0 where
  api scheduled scheduled_manual retry : JobTriggerSource

pub data JobStatus : Type 0 where
  created queued dispatch_failed running cancel_requested : JobStatus
  cancelled completed completed_with_errors failed : JobStatus

abbrev pub job_status_value : JobStatus → String
job_status_value JobStatus.created = "CREATED"
job_status_value JobStatus.queued = "QUEUED"
job_status_value JobStatus.dispatch_failed = "DISPATCH_FAILED"
job_status_value JobStatus.running = "RUNNING"
job_status_value JobStatus.cancel_requested = "CANCEL_REQUESTED"
job_status_value JobStatus.cancelled = "CANCELLED"
job_status_value JobStatus.completed = "COMPLETED"
job_status_value JobStatus.completed_with_errors = "COMPLETED_WITH_ERRORS"
job_status_value JobStatus.failed = "FAILED"

pub data JobBatchStatus : Type 0 where
  pending queued running retrying : JobBatchStatus
  completed completed_with_errors failed cancelled : JobBatchStatus

pub data JobItemStatus : Type 0 where
  pending running succeeded failed cancelled : JobItemStatus

-- `TERMINAL_JOB_STATUSES`
abbrev pub is_terminal_job : JobStatus → Bool
is_terminal_job JobStatus.cancelled = true
is_terminal_job JobStatus.completed = true
is_terminal_job JobStatus.completed_with_errors = true
is_terminal_job JobStatus.failed = true
is_terminal_job _ = false

-- `TERMINAL_BATCH_STATUSES`
abbrev pub is_terminal_batch : JobBatchStatus → Bool
is_terminal_batch JobBatchStatus.completed = true
is_terminal_batch JobBatchStatus.completed_with_errors = true
is_terminal_batch JobBatchStatus.failed = true
is_terminal_batch JobBatchStatus.cancelled = true
is_terminal_batch _ = false

pub record JobItem : Type 0 where
  pub reference : String
  pub status : JobItemStatus
  pub attempts : ℕ
  pub external_status_code : Option ℕ
  pub result_data : Option Value
  pub safe_error : Option String
  pub started_at : Option Time
  pub finished_at : Option Time

pub record JobBatch : Type 0 where
  pub id : Uuid
  pub sequence : ℕ
  pub status : JobBatchStatus
  pub celery_task_id : Option Uuid
  pub attempts : ℕ
  pub total_items : ℕ
  pub succeeded_items : ℕ
  pub failed_items : ℕ
  pub cancelled_items : ℕ
  pub started_at : Option Time
  pub finished_at : Option Time
  pub heartbeat_at : Option Time
  pub error_summary : Option String
  pub items : List JobItem

pub record Job : Type 0 where
  pub id : Uuid
  pub parent_job_id : Option Uuid
  pub scheduled_job_id : Option Uuid
  pub trigger_source : JobTriggerSource
  pub job_type : JobType
  pub status : JobStatus
  pub parameters : Dict
  pub idempotency_key : Option String
  pub total_items : ℕ
  pub processed_items : ℕ
  pub succeeded_items : ℕ
  pub failed_items : ℕ
  pub cancelled_items : ℕ
  pub total_batches : ℕ
  pub finished_batches : ℕ
  pub started_at : Option Time
  pub finished_at : Option Time
  pub cancel_requested_at : Option Time
  pub error_summary : Option String
  pub encrypted_secrets : Option String
  pub created_by : Uuid
  pub updated_by : Option Uuid
  pub batches : List JobBatch

abbrev pub is_pending : JobItem → Bool
is_pending i = elim i.status [ JobItemStatus.pending ↦ true | _ ↦ false ]

abbrev pub is_running : JobItem → Bool
is_running i = elim i.status [ JobItemStatus.running ↦ true | _ ↦ false ]

abbrev pub is_succeeded : JobItem → Bool
is_succeeded i = elim i.status [ JobItemStatus.succeeded ↦ true | _ ↦ false ]

abbrev pub is_failed : JobItem → Bool
is_failed i = elim i.status [ JobItemStatus.failed ↦ true | _ ↦ false ]

abbrev pub is_cancelled : JobItem → Bool
is_cancelled i = elim i.status [ JobItemStatus.cancelled ↦ true | _ ↦ false ]

abbrev pub is_finished : JobBatch → Bool
is_finished b = is_terminal_batch b.status

-- The rows of `job_items` with this `job_id`.
abbrev pub job_items : Job → List JobItem
job_items job = gather (λ b. b.items) job.batches
