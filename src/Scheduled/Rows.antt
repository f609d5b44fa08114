-- ===== src/Scheduled/Rows.antt =====
-- The table of scheduled jobs: app/models/jobs/job_model.py (ScheduledJob) and
-- app/api/scheduled_jobs/repository.py.
use proyecto.Common.{
  ℕ, String, Bool, false, ◌&&◌, ◌||◌, Option, none, some, List, [], ◌∷◌, ◌==◌, ltb, leb, str_eq,
  if◌then◌else◌, find,
}
use proyecto.Common.Value.{Dict}
use proyecto.Jobs.Model.{Uuid, Time, JobType}
use proyecto.Scheduled.Schedule.{Schedule}
use proyecto.Scheduled.Config.{ScheduledJobScheduleKind, read_schedule}

pub record ScheduledJob : Type 0 where
  pub id : Uuid
  pub name : String
  pub job_type : JobType
  pub enabled : Bool
  pub schedule_kind : ScheduledJobScheduleKind
  pub schedule_config : Dict
  pub parameters : Dict
  pub batch_size : ℕ
  pub timezone : String
  pub next_run_at : Time
  pub last_run_at : Option Time
  pub last_job_id : Option Uuid
  pub last_status : Option String
  pub consecutive_failures : ℕ
  pub last_error : Option String
  pub created_by : Option Uuid
  pub updated_by : Option Uuid

abbrev pub ScheduledDb : Type 0
ScheduledDb = List ScheduledJob

abbrev pub schedule : ScheduledJob → Schedule
schedule row = read_schedule row.schedule_kind row.schedule_config

abbrev pub has_id : Uuid → ScheduledJob → Bool
has_id id row = row.id == id

unfoldable pub get_by_id : Uuid → ScheduledDb → Option ScheduledJob
get_by_id id db = find (has_id id) db

-- UPDATE of the row with this primary key
abbrev pub put_row : ScheduledJob → ScheduledDb → ScheduledDb
put_row row [] = []
put_row row (r ∷ db) = (if r.id == row.id then row else r) ∷ put_row row db

-- The filter of `list_due_jobs`.
abbrev pub is_due : Time → ScheduledJob → Bool
is_due now row = row.enabled && leb row.next_run_at now

-- `order_by(next_run_at, id)`
abbrev pub precedes : ScheduledJob → ScheduledJob → Bool
precedes a b = ltb a.next_run_at b.next_run_at || a.next_run_at == b.next_run_at && ltb a.id b.id

abbrev pub earlier_of : ScheduledJob → Option ScheduledJob → ScheduledJob
earlier_of row none = row
earlier_of row (some other) = if precedes other row then other else row

-- `list_due_jobs(now=now, limit=1)`; a row that another scheduler has locked is not in the table
unfoldable pub first_due : Time → ScheduledDb → Option ScheduledJob
first_due now [] = none
first_due now (row ∷ db) =
    let rest = first_due now db in if is_due now row then some (earlier_of row rest) else rest

-- The unique constraint on the name, between this row and those with another key.
abbrev pub name_taken : ScheduledJob → ScheduledDb → Bool
name_taken row [] = false
name_taken row (r ∷ db) =
    (if r.id == row.id then false else str_eq r.name row.name) || name_taken row db
