-- ===== src/Scheduled/Tests.antt =====
-- Schedules of a zone five hours behind UTC, and a pass of the scheduler over two rows of which one
-- cannot be read.
use proyecto.Common.{
  ℕ, ◌+◌, ◌-◌, ◌*◌, ◌≤◌, ◌<◌, ◌≡◌, refl, String, true, none, some, List, [], ◌∷◌, arith, count, All,
}
use mathlib.Core.Path.{subst}
use proyecto.Common.Value.{Dict, Value, element, no_more}
use proyecto.Core.Errors.{ok, err, overflow_error}
use proyecto.Core.Modules.{is_module_enabled, get_disabled_reason, read_row}
use proyecto.Jobs.Model.{Uuid, Time, ledger_sync, JobStatus}
use proyecto.Scheduled.Clock.{Wall, minute, combine, Zone, KeepsOrder}
use proyecto.Scheduled.Schedule.{
  daily, is_valid_schedule, next_wall, next_within, overflows, days_overflow, window_overflows,
  next_window_interval, window_from, window_on, days_from, calculate_next_run,
}
use proyecto.Scheduled.Schedule.Window.{Config, schedule_of, IsSlot}
use proyecto.Scheduled.Schedule.First.{next_window_first}
use proyecto.Scheduled.Schedule.Daily.{IsDailyTime, next_daily_first}
use proyecto.Scheduled.Config.{daily_kind, interval_minutes_kind, read_schedule}
use proyecto.Scheduled.Rows.{ScheduledJob, ScheduledDb, is_due, first_due}
use proyecto.Scheduled.Run.{
  Env, build_idempotency_key, create_execution, advance_and_execute, run_due,
}
use proyecto.Scheduled.Run.Queue.{ReadyIfDue, run_due_clears}
use proyecto.Scheduled.Run.Accounts.{Accounts, advance_and_execute-Accounts}
use proyecto.Scheduled.Edit.{ScheduledJobCreate, ScheduledJobUpdate, update}
use proyecto.Scheduled.Edit.Laws.{IsValidRow, update-IsValidRow}

-- Every half hour from 8:00 to 18:30, Monday to Friday, asked on a Friday at 18:45: Monday at 8:00.
abbrev office_hours : Config
office_hours = record {
  minutes = 30;
  weekdays = 0 ∷ 1 ∷ 2 ∷ 3 ∷ 4 ∷ [];
  start_time = (8, 0);
  end_time = (18, 30);
}

abbrev friday_evening : Wall
friday_evening = combine 11 (18 * 60 + 45)

next_window_run : next_wall (schedule_of office_hours) friday_evening ≡ ok (combine 14 (8 * 60))
unfolding next_wall next_within overflows days_overflow window_overflows next_window_interval
    days_from window_on window_from
next_window_run = refl

abbrev five_hours : ℕ
five_hours = 300 * minute

abbrev lima : Zone
lima = record { to_wall = λ t. t - five_hours; to_instant = λ w. w + five_hours }

lima-KeepsOrder : KeepsOrder lima
lima-KeepsOrder = record { later = λ t w h. omega arith }

-- The same evening in Lima, as an instant.
abbrev that_evening : ℕ
that_evening = friday_evening + five_hours

next_window_first_example :
    (found : Wall) × (calculate_next_run (schedule_of office_hours) (some lima) that_evening
      ≡ ok (found + five_hours))
    × (that_evening < found + five_hours)
    × IsSlot office_hours found
    × (friday_evening < found)
    × ((w : Wall) → IsSlot office_hours w → friday_evening < w → found ≤ w)
unfolding is_valid_schedule
next_window_first_example =
    next_window_first office_hours lima that_evening refl lima-KeepsOrder (omega arith)
      (omega arith)

abbrev twice_a_day : List (ℕ × ℕ)
twice_a_day = (6, 0) ∷ (18, 0) ∷ []

next_daily_first_example :
    (found : Wall) × (calculate_next_run (daily twice_a_day) (some lima) that_evening
      ≡ ok (found + five_hours))
    × (that_evening < found + five_hours)
    × IsDailyTime twice_a_day found
    × (friday_evening < found)
    × ((w : Wall) → IsDailyTime twice_a_day w → friday_evening < w → found ≤ w)
unfolding is_valid_schedule
next_daily_first_example =
    next_daily_first twice_a_day lima that_evening refl lima-KeepsOrder (omega arith)

-- An interval of ten thousand million minutes passes the year 9999.
abbrev ages : Config
ages = record office_hours { minutes = 10000000000 }

window_overflow_run :
    next_wall (schedule_of ages) friday_evening ≡ err (overflow_error "date value out of range")
unfolding next_wall overflows days_overflow window_on window_from window_overflows
window_overflow_run = refl

abbrev daily_config : Dict
daily_config = Dict.entry "times" (Value.list (element (Value.text "06:00") no_more)) Dict.empty

read_schedule_run : read_schedule daily_kind daily_config ≡ daily ((6, 0) ∷ [])
unfolding read_schedule
read_schedule_run = refl

-- A row that is due, of the ledger, with this configuration.
abbrev row_with : Uuid → String → Dict → ScheduledJob
row_with id name config = record {
  id = id;
  name = name;
  job_type = ledger_sync;
  enabled = true;
  schedule_kind = daily_kind;
  schedule_config = config;
  parameters = Dict.empty;
  batch_size = 1;
  timezone = "America/Lima";
  next_run_at = combine 11 0;
  last_run_at = none;
  last_job_id = none;
  last_status = none;
  consecutive_failures = 0;
  last_error = none;
  created_by = some 7;
  updated_by = none;
}

abbrev env : Env
env = record {
  zone_of = λ name. some lima;
  switches = record { modules_disabled = []; modules = [] };
  enqueue = λ row key user source. ok (100, JobStatus.queued);
  str = λ e. "error";
}

abbrev poisoned : ScheduledJob
poisoned = row_with 1 "poisoned" Dict.empty

abbrev table : ScheduledDb
table = poisoned ∷ row_with 2 "ledger" daily_config ∷ []

abbrev at_noon : Time
at_noon = combine 11 720

run_due_run : (run_due env (λ _. at_noon) 0 20 table).0 ≡ 1
unfolding run_due first_due advance_and_execute calculate_next_run next_wall next_within overflows
    read_schedule create_execution build_idempotency_key is_module_enabled get_disabled_reason
    read_row
run_due_run = refl

zones_keep_order : (row : ScheduledJob) (zone : Zone) → some lima ≡ some zone → KeepsOrder zone
zones_keep_order row zone e = subst KeepsOrder (some_zone lima zone e) lima-KeepsOrder
  where
    some_zone : (a b : Zone) → some a ≡ some b → a ≡ b
    some_zone a b h = cc

table-ReadyIfDue : All (ReadyIfDue env at_noon) table
unfolding read_schedule
table-ReadyIfDue = (
  λ _. record { moves = refl; order = zones_keep_order poisoned },
  (λ _. record { moves = refl; order = zones_keep_order poisoned }, tt),
)

run_due_clears_example :
    (count (is_due at_noon) (run_due env (λ _. at_noon) 0 20 table).1 ≡ 0)
    × ((run_due env (λ _. at_noon) 0 20 table).0 ≤ count (is_due at_noon) table)
run_due_clears_example = run_due_clears env at_noon 0 20 table table-ReadyIfDue (omega arith)

advance_and_execute-Accounts_example :
    Accounts env at_noon poisoned (advance_and_execute env at_noon poisoned)
advance_and_execute-Accounts_example = advance_and_execute-Accounts env at_noon poisoned

-- A change of the kind alone, which would leave a daily configuration under an interval.
abbrev only_kind : ScheduledJobUpdate
only_kind = record {
  name = none;
  enabled = none;
  schedule_kind = some interval_minutes_kind;
  schedule_config = none;
  parameters = none;
  batch_size = none;
  timezone = none;
  next_run_at = none;
}

abbrev valid_table : ScheduledDb
valid_table = row_with 2 "ledger" daily_config ∷ []

update-IsValidRow_example :
    All IsValidRow (update env.zone_of "invalid" at_noon 2 7 only_kind valid_table).1
unfolding is_valid_schedule read_schedule
update-IsValidRow_example =
    update-IsValidRow env.zone_of "invalid" at_noon 2 7 only_kind valid_table (refl, tt)

abbrev new_request : ScheduledJobCreate
new_request = record {
  name = "ledger";
  job_type = ledger_sync;
  enabled = true;
  schedule_kind = daily_kind;
  schedule_config = daily_config;
  parameters = Dict.empty;
  batch_size = 1;
  timezone = "America/Lima";
  next_run_at = none;
}
