-- ===== src/Scheduled/Run.antt =====
-- The scheduler: `run_due`, `_advance_and_execute`, `_create_execution` and `run_now` of
-- app/api/scheduled_jobs/service.py. What `_dispatch_scheduled_job` asks of the services of the ledger
-- and of the ingestion is the parameter `enqueue`.
pub mod Laws
pub mod Queue
pub mod Accounts
use Prim.Native.String.{◌++◌}
use proyecto.Common.{
  ℕ, zero, suc, ◌+◌, ◌/◌, String, Bool, true, false, not, ◌&&◌, Option, none, some, List, [], ◌∷◌,
  if◌then◌else◌,
}
use proyecto.Common.Chars.{take_text}
use proyecto.Core.Errors.{
  Error, not_found, validation, conflict, forbidden, business, module_disabled, http, integrity,
  value_error, attribute_error, broker, Result, ok, err,
}
use proyecto.Core.Modules.{Switches, is_module_enabled, module_display_name}
use proyecto.Jobs.Model.{Uuid, Time, JobTriggerSource, JobStatus, job_status_value}
use proyecto.Jobs.Dispatcher.{job_module}
use proyecto.Scheduled.Clock.{Zone}
use proyecto.Scheduled.Schedule.{calculate_next_run}
use proyecto.Scheduled.Rows.{ScheduledJob, ScheduledDb, schedule, get_by_id, put_row, first_due}

-- `_build_idempotency_key`: the prefix, the id and the second of the slot, which the text joins.
pub record ExecutionKey : Type 0 where
  pub manual : Bool
  pub id : Uuid
  pub slot : ℕ

unfoldable pub build_idempotency_key : ScheduledJob → Time → Bool → ExecutionKey
build_idempotency_key row due_at manual = record {
  manual = manual;
  id = row.id;
  slot = due_at / 1000000;
}

-- What the scheduler meets: the zones by name, the switches of the modules, what comes of publishing
-- a job, and the texts of errors (`str(error)`).
pub record Env : Type 0 where
  pub zone_of : String → Option Zone
  pub switches : Switches
  pub enqueue : ScheduledJob → ExecutionKey → Uuid → JobTriggerSource → Result (Uuid × JobStatus)
  pub str : Error → String

abbrev pub user_of : Bool → Option Uuid → Uuid → Uuid
user_of true (some user_id) creator = user_id
user_of _ _ creator = creator

abbrev pub source_of : Bool → JobTriggerSource
source_of true = JobTriggerSource.scheduled_manual
source_of false = JobTriggerSource.scheduled

-- The row after the call that publishes the job.
abbrev pub recorded : Env → ScheduledJob → Result (Uuid × JobStatus) → ScheduledJob
recorded env row (ok (job_id, status)) = record row {
  last_job_id = some job_id;
  last_status = some (job_status_value status);
  last_error = none;
  consecutive_failures = 0;
}
recorded env row (err e) = record row {
  last_status = some "FAILED";
  last_error = some (take_text 1000 (env.str e));
  consecutive_failures = row.consecutive_failures + 1;
}

-- By the user who created the row, if there is one.
abbrev pub execution_of :
    Env
    → ScheduledJob
    → Time
    → Bool
    → Option Uuid
    → Option Uuid
    → Result (Uuid × JobStatus) × ScheduledJob
execution_of env row due_at manual user_id none =
    (err (validation "La tarea programada no tiene usuario creador"), row)
execution_of env row due_at manual user_id (some creator) =
    let r =
      env.enqueue row (build_idempotency_key row due_at manual) (user_of manual user_id creator)
        (source_of manual) in
    (r, recorded env row r)

-- `_create_execution`
unfoldable pub create_execution :
    Env → ScheduledJob → Time → Bool → Option Uuid → Result (Uuid × JobStatus) × ScheduledJob
create_execution env row due_at manual user_id =
    execution_of env row due_at manual user_id row.created_by

abbrev pub is_ok {ℓ} : {A : Type ℓ} → Result A → Bool
is_ok (ok a) = true
is_ok (err e) = false

-- The row that cannot be scheduled again.
abbrev pub disabled : Env → Time → ScheduledJob → Error → ScheduledJob
disabled env now row e = record row {
  last_run_at = some now;
  enabled = false;
  last_status = some "FAILED";
  last_error = some (take_text 1000 ("schedule_config invalido: " ++ env.str e));
  consecutive_failures = row.consecutive_failures + 1;
}

abbrev pub skipped : ScheduledJob → String → ScheduledJob
skipped row code = record row {
  last_status = some "SKIPPED";
  last_error = some ("Omitido: el modulo '" ++ module_display_name code ++ "' esta desactivado");
}

abbrev pub executed : Env → ScheduledJob → Time → Bool × ScheduledJob
executed env row due_at =
    let (r, after) = create_execution env row due_at false none in (is_ok r, after)

-- By the module of the row's type: skipped when it is off, and else executed.
abbrev pub by_module : Env → ScheduledJob → Time → Option String → Bool × ScheduledJob
by_module env row due_at none = executed env row due_at
by_module env row due_at (some code) =
    if not (is_module_enabled code env.switches)
    then (false, skipped row code)
    else executed env row due_at

-- The row whose next run is set.
abbrev pub execute_or_skip : Env → ScheduledJob → Time → Bool × ScheduledJob
execute_or_skip env row due_at = by_module env row due_at (job_module row.job_type)

abbrev pub advanced : Env → Time → ScheduledJob → Result Time → Bool × ScheduledJob
advanced env now row (err e) = (false, disabled env now row e)
advanced env now row (ok next) =
    execute_or_skip env (record row { last_run_at = some now; next_run_at = next }) row.next_run_at

-- `_advance_and_execute`
unfoldable pub advance_and_execute : Env → Time → ScheduledJob → Bool × ScheduledJob
unfolding create_execution
advance_and_execute env now row =
    advanced env now row (calculate_next_run (schedule row) (env.zone_of row.timezone) now)

-- `run_due`; `clock k` is the time of the k-th round
unfoldable pub run_due : Env → (ℕ → Time) → ℕ → ℕ → ScheduledDb → ℕ × ScheduledDb
run_due env clock k zero db = (0, db)
run_due env clock k (suc limit) db = elim (first_due (clock k) db) [
  | none ↦ (0, db)
  | some row ↦
      let (done, after) = advance_and_execute env (clock k) row in
      let (executed_later, db') = run_due env clock (k + 1) limit (put_row after db) in
      ((if done then 1 else 0) + executed_later, db')
]

-- `run_now`; a row without a creator is not committed
abbrev pub run_row :
    Env → Time → Uuid → ScheduledDb → ScheduledJob → Result (Uuid × JobStatus) × ScheduledDb
run_row env now user_id db row = elim row.created_by [
  | none ↦ (err (validation "La tarea programada no tiene usuario creador"), db)
  | some creator ↦
      let (r, after) =
        create_execution env (record row { last_run_at = some now }) now true (some user_id) in
      (r, put_row after db)
]

unfoldable pub run_now :
    Env → Time → Uuid → Uuid → ScheduledDb → Result (Uuid × JobStatus) × ScheduledDb
unfolding create_execution
run_now env now scheduled_job_id user_id db = elim (get_by_id scheduled_job_id db) [
  | none ↦ (err (not_found "Tarea programada no encontrada"), db)
  | some row ↦ run_row env now user_id db row
]
