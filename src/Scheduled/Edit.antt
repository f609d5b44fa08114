-- ===== src/Scheduled/Edit.antt =====
-- `create`, `get` and `update` of app/api/scheduled_jobs/service.py. The request was validated by its
-- schema: a new job has a valid configuration; a change is checked here, after the merge. A field of a
-- change that is sent as null is taken for one that is not sent.
pub mod Laws
use proyecto.Common.{
  ℕ, String, Bool, true, false, not, ◌&&◌, ◌||◌, Option, none, some, List, [], ◌∷◌, ◌++◌,
  if◌then◌else◌,
}
use proyecto.Common.Value.{Dict}
use proyecto.Core.Errors.{Error, validation, conflict, not_found, Result, ok, err}
use proyecto.Jobs.Model.{Uuid, Time, JobType}
use proyecto.Scheduled.Clock.{Zone}
use proyecto.Scheduled.Schedule.{is_valid_schedule, calculate_next_run}
use proyecto.Scheduled.Config.{ScheduledJobScheduleKind}
use proyecto.Scheduled.Rows.{ScheduledJob, ScheduledDb, schedule, get_by_id, put_row, name_taken}

-- `ScheduledJobCreate`
pub record ScheduledJobCreate : Type 0 where
  pub name : String
  pub job_type : JobType
  pub enabled : Bool
  pub schedule_kind : ScheduledJobScheduleKind
  pub schedule_config : Dict
  pub parameters : Dict
  pub batch_size : ℕ
  pub timezone : String
  pub next_run_at : Option Time

abbrev pub new_row : Uuid → Uuid → ScheduledJobCreate → Time → ScheduledJob
new_row id user_id request next_run_at = record {
  id = id;
  name = request.name;
  job_type = request.job_type;
  enabled = request.enabled;
  schedule_kind = request.schedule_kind;
  schedule_config = request.schedule_config;
  parameters = request.parameters;
  batch_size = request.batch_size;
  timezone = request.timezone;
  next_run_at = next_run_at;
  last_run_at = none;
  last_job_id = none;
  last_status = none;
  consecutive_failures = 0;
  last_error = none;
  created_by = some user_id;
  updated_by = none;
}

abbrev pub name_conflict : Error
name_conflict = conflict "Ya existe una tarea programada con ese nombre"

abbrev pub inserted : ScheduledDb → ScheduledJob → Result ScheduledJob × ScheduledDb
inserted db row = if name_taken row db then (err name_conflict, db) else (ok row, row ∷ db)

abbrev pub insert_at :
    Uuid → Uuid → ScheduledJobCreate → ScheduledDb → Result Time → Result ScheduledJob × ScheduledDb
insert_at id user_id request db (err e) = (err e, db)
insert_at id user_id request db (ok next_run_at) =
    inserted db (new_row id user_id request next_run_at)

-- `request.next_run_at or calculate_next_run(...)`, once the zone is known
abbrev pub first_run : (String → Option Zone) → Time → ScheduledJob → Option Time → Result Time
first_run zone_of now row (some next_run_at) = ok next_run_at
first_run zone_of now row none = calculate_next_run (schedule row) (zone_of row.timezone) now

abbrev pub is_none {ℓ} : {A : Type ℓ} → Option A → Bool
is_none none = true
is_none (some a) = false

unfoldable pub create :
    (String → Option Zone)
    → Time
    → Uuid
    → Uuid
    → ScheduledJobCreate
    → ScheduledDb
    → Result ScheduledJob × ScheduledDb
create zone_of now id user_id request db =
    if is_none (zone_of request.timezone)
    then (err (validation "Zona horaria no soportada"), db)
    else insert_at id user_id request db
        (first_run zone_of now (new_row id user_id request now) request.next_run_at)

-- `ScheduledJobUpdate`: the fields that are sent
pub record ScheduledJobUpdate : Type 0 where
  pub name : Option String
  pub enabled : Option Bool
  pub schedule_kind : Option ScheduledJobScheduleKind
  pub schedule_config : Option Dict
  pub parameters : Option Dict
  pub batch_size : Option ℕ
  pub timezone : Option String
  pub next_run_at : Option Time

abbrev pub sent_or {ℓ} : {A : Type ℓ} → Option A → A → A
sent_or none old = old
sent_or (some new) old = new

-- `for field, value in updates.items(): setattr(...)`
abbrev pub merged : ScheduledJob → ScheduledJobUpdate → ScheduledJob
merged row u = record row {
  name = sent_or u.name row.name;
  enabled = sent_or u.enabled row.enabled;
  schedule_kind = sent_or u.schedule_kind row.schedule_kind;
  schedule_config = sent_or u.schedule_config row.schedule_config;
  parameters = sent_or u.parameters row.parameters;
  batch_size = sent_or u.batch_size row.batch_size;
  timezone = sent_or u.timezone row.timezone;
  next_run_at = sent_or u.next_run_at row.next_run_at;
}

abbrev pub changes_config : ScheduledJobUpdate → Bool
changes_config u = not (is_none u.schedule_kind) || not (is_none u.schedule_config)

abbrev pub unknown_zone : (String → Option Zone) → ScheduledJobUpdate → Bool
unknown_zone zone_of u = elim u.timezone [ none ↦ false | some name ↦ is_none (zone_of name) ]

-- The next run after the merge: calculated again when the schedule changed and no time was sent.
abbrev pub next_of : (String → Option Zone) → Time → ScheduledJobUpdate → ScheduledJob → Result Time
next_of zone_of now u row =
    if is_none u.next_run_at && (changes_config u || not (is_none u.timezone))
    then calculate_next_run (schedule row) (zone_of row.timezone) now
    else ok row.next_run_at

abbrev pub saved : ScheduledDb → ScheduledJob → Result ScheduledJob × ScheduledDb
saved db row = if name_taken row db then (err name_conflict, db) else (ok row, put_row row db)

abbrev pub save_at :
    Uuid → ScheduledDb → ScheduledJob → Result Time → Result ScheduledJob × ScheduledDb
save_at user_id db row (err e) = (err e, db)
save_at user_id db row (ok next) =
    saved db (record row { next_run_at = next; updated_by = some user_id })

-- The text of the error of `validate_schedule_config` is left open, `invalid_text`.
abbrev pub update_row :
    (String → Option Zone)
    → String
    → Time
    → Uuid
    → ScheduledJobUpdate
    → ScheduledDb
    → ScheduledJob
    → Result ScheduledJob × ScheduledDb
update_row zone_of invalid_text now user_id u db row =
    if unknown_zone zone_of u
    then (err (validation "Zona horaria no soportada"), db)
    else if changes_config u && not (is_valid_schedule (schedule (merged row u)))
    then (err (validation invalid_text), db)
    else save_at user_id db (merged row u) (next_of zone_of now u (merged row u))

abbrev pub update_found :
    (String → Option Zone)
    → String
    → Time
    → Uuid
    → ScheduledJobUpdate
    → ScheduledDb
    → Option ScheduledJob
    → Result ScheduledJob × ScheduledDb
update_found zone_of invalid_text now user_id u db none =
    (err (not_found "Tarea programada no encontrada"), db)
update_found zone_of invalid_text now user_id u db (some row) =
    update_row zone_of invalid_text now user_id u db row

unfoldable pub update :
    (String → Option Zone)
    → String
    → Time
    → Uuid
    → Uuid
    → ScheduledJobUpdate
    → ScheduledDb
    → Result ScheduledJob × ScheduledDb
update zone_of invalid_text now scheduled_job_id user_id u db =
    update_found zone_of invalid_text now user_id u db (get_by_id scheduled_job_id db)
