-- ===== src/Scheduled/Run/Laws.antt =====
-- The scheduler moves on: a row that was started is no longer due, whatever came of it.
use proyecto.Common.{
  ◌≡◌, ◌⊎◌, refl, String, Bool, true, false, not, inl, inr, Option, none, some, arith,
  if◌then◌else◌,
}
use proyecto.Core.Errors.{Result, ok, err}
use proyecto.Core.Modules.{is_module_enabled}
use proyecto.Jobs.Model.{Uuid, Time, JobStatus}
use proyecto.Jobs.Dispatcher.{job_module}
use proyecto.Scheduled.Clock.{Zone, KeepsOrder}
use proyecto.Scheduled.Schedule.{calculate_next_run}
use proyecto.Scheduled.Schedule.Next.{moves_on, calculate_next_run_passes}
use proyecto.Scheduled.Rows.{ScheduledJob, schedule, is_due}
use proyecto.Scheduled.Run.{
  Env, execution_of, by_module, source_of, build_idempotency_key, create_execution, recorded,
  skipped, executed, advanced, advance_and_execute,
}

-- What executing or skipping leaves of the row.
record IsSameRow (before after : ScheduledJob) : Type 0 where
  id : after.id ≡ before.id
  enabled : after.enabled ≡ before.enabled
  next : after.next_run_at ≡ before.next_run_at

module _ (env : Env) where
  recorded-IsSameRow :
      (row : ScheduledJob) (r : Result (Uuid × JobStatus)) → IsSameRow row (recorded env row r)
  recorded-IsSameRow row (ok (job_id, status)) = record { id = refl; enabled = refl; next = refl }
  recorded-IsSameRow row (err e) = record { id = refl; enabled = refl; next = refl }

  execution-IsSameRow :
      (row : ScheduledJob) (due_at : Time) (creator : Option Uuid)
      → IsSameRow row (execution_of env row due_at false none creator).1
  execution-IsSameRow row due_at none = record { id = refl; enabled = refl; next = refl }
  execution-IsSameRow row due_at (some creator) =
      recorded-IsSameRow row
        (env.enqueue row (build_idempotency_key row due_at false) creator (source_of false))

  executed-IsSameRow :
      (row : ScheduledJob) (due_at : Time) → IsSameRow row (executed env row due_at).1
  unfolding create_execution
  executed-IsSameRow row due_at = execution-IsSameRow row due_at row.created_by

  IsSameRow-if :
      (test : Bool) (row : ScheduledJob) (a b : Bool × ScheduledJob)
      → IsSameRow row a.1
      → IsSameRow row b.1
      → IsSameRow row (if test then a else b).1
  IsSameRow-if true row a b ha hb = ha
  IsSameRow-if false row a b ha hb = hb

  by_module-IsSameRow :
      (row : ScheduledJob) (due_at : Time) (code : Option String)
      → IsSameRow row (by_module env row due_at code).1
  by_module-IsSameRow row due_at none = executed-IsSameRow row due_at
  by_module-IsSameRow row due_at (some code) =
      IsSameRow-if (not (is_module_enabled code env.switches)) row (false, skipped row code)
        (executed env row due_at) (record { id = refl; enabled = refl; next = refl })
        (executed-IsSameRow row due_at)

  -- Whatever is calculated, the row is disabled or its next run is the one calculated.
  advanced_row :
      (now : Time) (row : ScheduledJob) (r : Result Time)
      → ((advanced env now row r).1.id ≡ row.id)
        × (((advanced env now row r).1.enabled ≡ false)
            ⊎ ((next : Time) × (r ≡ ok next) × ((advanced env now row r).1.next_run_at ≡ next)))
  advanced_row now row (err e) = (refl, inl refl)
  advanced_row now row (ok next) =
      let same =
        by_module-IsSameRow (record row { last_run_at = some now; next_run_at = next })
          row.next_run_at (job_module row.job_type) in
      (same.id, inr (next, refl, same.next))

  -- A row that the scheduler starts is not due at that instant any more, whether its configuration can
  -- be read or not, its module is on or off, and its job was published or not; and it keeps its key.
  -- The zone of the row keeps the order, and an interval has at least one minute.
  pub advance_and_execute-moves_on :
      (now : Time) (row : ScheduledJob)
      → moves_on (schedule row) ≡ true
      → ((zone : Zone) → env.zone_of row.timezone ≡ some zone → KeepsOrder zone)
      → let after = (advance_and_execute env now row).1 in
        (is_due now after ≡ false) × (after.id ≡ row.id)
  unfolding advance_and_execute
  advance_and_execute-moves_on now row moves order =
      let (same, ends) =
        advanced_row now row (calculate_next_run (schedule row) (env.zone_of row.timezone) now) in
      (
        elim ends [
          | inl off ↦ ground (arith, off)
          | inr (next, calculated, there) ↦ ground (
            arith,
            there,
            calculate_next_run_passes (schedule row) (env.zone_of row.timezone) now next moves order
                calculated,
          )
        ],
        same,
      )
