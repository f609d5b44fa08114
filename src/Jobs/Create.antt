-- ===== src/Jobs/Create.antt =====
-- `JobService.create_job` of app/api/jobs/service.py.
pub mod Idempotent
pub mod Batches
use proyecto.Common.{
  ℕ, String, Bool, true, false, ◌&&◌, not, Option, none, some, List, [], ◌∷◌, ◌++◌, ◌==◌, leb,
  str_eq, if◌then◌else◌, length, any,
}
use proyecto.Common.Value.{Value, Dict}
use proyecto.Core.Errors.{
  Result, ok, err, Error, conflict, integrity, Exec, ◌>>=◌, ◌>>◌, raise, refuse_if,
}
use proyecto.Jobs.Model.{Uuid, Time, JobType, JobTriggerSource, JobStatus, Job, JobBatch}
use proyecto.Jobs.Repository.{Db, has_key, get_by_idempotency_key}
use proyecto.Jobs.Batching.{from_keys, chunked, build_batches}
use proyecto.Jobs.Service.{Dispatcher, get_job, dispatch}

-- The arguments of `create_job`; `item_payloads=None` is `[]`, which the code treats alike.
pub record JobRequest : Type 0 where
  pub job_type : JobType
  pub parameters : Dict
  pub references : List String
  pub user_id : Uuid
  pub batch_size : ℕ
  pub idempotency_key : Option String
  pub parent_job_id : Option Uuid
  pub scheduled_job_id : Option Uuid
  pub trigger_source : JobTriggerSource
  pub encrypted_secrets : Option String
  pub item_payloads : List (String × Value)

-- What the call takes from outside: the keys that `uuid4()` makes, and the jobs that other
-- transactions commit between the look-up of the key and the commit.
pub record Surroundings : Type 0 where
  pub job_id : Uuid
  pub batch_id : ℕ → Uuid
  pub committed_meanwhile : List Job

-- `if idempotency_key:` is false of `None` and of the empty text.
abbrev pub truthy : Option String → Option String
truthy none = none
truthy (some key) = if str_eq key "" then none else some key

unfoldable pub new_job : Surroundings → JobRequest → List String → Job
unfolding chunked build_batches
new_job s request normalized =
    let batches =
      build_batches s.batch_id request.item_payloads 1 (chunked normalized request.batch_size) in
    record {
      id = s.job_id;
      parent_job_id = request.parent_job_id;
      scheduled_job_id = request.scheduled_job_id;
      trigger_source = request.trigger_source;
      job_type = request.job_type;
      status = JobStatus.queued;
      parameters = request.parameters;
      idempotency_key = request.idempotency_key;
      total_items = length normalized;
      processed_items = 0;
      succeeded_items = 0;
      failed_items = 0;
      cancelled_items = 0;
      total_batches = length batches;
      finished_batches = 0;
      started_at = none;
      finished_at = none;
      cancel_requested_at = none;
      error_summary = none;
      encrypted_secrets = request.encrypted_secrets;
      created_by = request.user_id;
      updated_by = none;
      batches = batches;
    }

-- The unique constraint `uq_jobs_creator_type_idempotency`; NULL keys do not collide.
abbrev pub violates : Job → Db → Bool
violates job db = elim job.idempotency_key [
  | none ↦ false
  | some key ↦ any (has_key job.created_by job.job_type key) db
]

-- The rows with this key, if the request has one.
abbrev pub existing_job : JobRequest → Db → Option Job
existing_job request db = elim (truthy request.idempotency_key) [
  | none ↦ none
  | some key ↦ get_by_idempotency_key request.user_id request.job_type key db
]

-- `except IntegrityError`
unfoldable pub after_violation : JobRequest → Exec Db Job
after_violation request db = elim (existing_job request db) [
  | none ↦ (err integrity, db)
  | some existing ↦ get_job existing.id request.user_id false db
]

unfoldable pub insert_and_dispatch :
    Surroundings → JobRequest → Option Dispatcher → List String → Exec Db Job
insert_and_dispatch s request dispatcher normalized db =
    let job = new_job s request normalized in
    let db' = db ++ s.committed_meanwhile in
    if violates job db'
    then after_violation request db'
    else (do dispatch dispatcher job.id; get_job job.id request.user_id false) (db' ++ job ∷ [])

abbrev pub is_empty : List String → Bool
is_empty [] = true
is_empty (_ ∷ _) = false

unfoldable pub find_or_insert :
    Surroundings → JobRequest → Option Dispatcher → List String → Exec Db Job
find_or_insert s request dispatcher normalized db = elim (existing_job request db) [
  | some existing ↦ get_job existing.id request.user_id false db
  | none ↦ insert_and_dispatch s request dispatcher normalized db
]

unfoldable pub create_job : Surroundings → JobRequest → Option Dispatcher → Exec Db Job
create_job s request dispatcher = do
  let normalized = from_keys request.references
  refuse_if (is_empty normalized) (conflict "La tarea debe contener al menos un elemento")
  refuse_if (leb request.batch_size 0) (conflict "El tamano del lote debe ser mayor que cero")
  find_or_insert s request dispatcher normalized
