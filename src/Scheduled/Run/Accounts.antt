-- ===== src/Scheduled/Run/Accounts.antt =====
-- How a run of a scheduled job is recorded in its row: what counts as a failure and what does not.
use proyecto.Common.{
  ◌+◌, ◌≡◌, ◌⊎◌, refl, sym, ◌∙◌, String, Bool, true, false, not, inl, inr, Option, none, some,
  if◌then◌else◌,
}
use mathlib.Core.Path.{subst}
use proyecto.Common.Tables.{some_inj}
use proyecto.Core.Errors.{Error, Result, ok, err}
use proyecto.Core.Modules.{is_module_enabled}
use proyecto.Jobs.Model.{Uuid, Time, JobStatus}
use proyecto.Jobs.Dispatcher.{job_module}
use proyecto.Scheduled.Schedule.{calculate_next_run}
use proyecto.Scheduled.Rows.{ScheduledJob, schedule}
use proyecto.Scheduled.Run.{
  Env, execution_of, by_module, build_idempotency_key, source_of, recorded, create_execution, is_ok,
  skipped, executed, advanced, advance_and_execute,
}

-- The call that publishes the job of a row whose next run is `next`.
abbrev pub publication : Env → Time → Time → ScheduledJob → Uuid → Result (Uuid × JobStatus)
publication env now next row creator =
    env.enqueue (record row { last_run_at = some now; next_run_at = next })
      (build_idempotency_key row row.next_run_at false) creator (source_of false)

-- The module of the row's type, if it has one, is not off.
abbrev pub IsOn : Env → ScheduledJob → Type 0
IsOn env row =
    (code : String)
    → job_module row.job_type ≡ some code
    → is_module_enabled code env.switches ≡ true

abbrev pub next_run_of : Env → Time → ScheduledJob → Result Time
next_run_of env now row = calculate_next_run (schedule row) (env.zone_of row.timezone) now

module _ (env : Env) (now : Time) (row : ScheduledJob) (r : Bool × ScheduledJob) where
  -- The next run cannot be calculated: the row is disabled, with a failure more.
  abbrev pub IsDisabled : Type 0
  IsDisabled =
      ((e : Error) × (next_run_of env now row ≡ err e))
      × (r.0 ≡ false)
      × (r.1.enabled ≡ false)
      × (r.1.next_run_at ≡ row.next_run_at)
      × (r.1.consecutive_failures ≡ row.consecutive_failures + 1)
      × (r.1.last_status ≡ some "FAILED")

  -- The module is off: the row is marked and moved on, and no failure is counted.
  abbrev pub IsSkipped : Time → Type 0
  IsSkipped next =
      ((code : String) × (job_module row.job_type ≡ some code)
        × (is_module_enabled code env.switches ≡ false))
      × (r.0 ≡ false)
      × (r.1.consecutive_failures ≡ row.consecutive_failures)
      × (r.1.last_status ≡ some "SKIPPED")

  -- The row has no creator: nothing is recorded of the run.
  abbrev pub IsOrphan : Type 0
  IsOrphan =
      IsOn env row
      × (row.created_by ≡ none)
      × (r.0 ≡ false)
      × (r.1.consecutive_failures ≡ row.consecutive_failures)
      × (r.1.last_status ≡ row.last_status)

  -- The job was published: no failure is left.
  abbrev pub IsPublished : Time → Type 0
  IsPublished next =
      IsOn env row
      × ((creator : Uuid) × (row.created_by ≡ some creator)
          × ((job : Uuid × JobStatus) × (publication env now next row creator ≡ ok job)
              × (r.1.last_job_id ≡ some job.0)))
      × (r.0 ≡ true)
      × (r.1.consecutive_failures ≡ 0)
      × (r.1.last_error ≡ none)

  -- The job could not be published: one failure more, and the row stays enabled.
  abbrev pub IsFailure : Time → Type 0
  IsFailure next =
      IsOn env row
      × ((creator : Uuid) × (row.created_by ≡ some creator)
          × ((e : Error) × (publication env now next row creator ≡ err e)))
      × (r.0 ≡ false)
      × (r.1.enabled ≡ row.enabled)
      × (r.1.consecutive_failures ≡ row.consecutive_failures + 1)
      × (r.1.last_status ≡ some "FAILED")

  -- The next run is set, and the run ends in one of four ways.
  abbrev pub IsRun : Type 0
  IsRun =
      (next : Time) × (next_run_of env now row ≡ ok next)
      × (r.1.next_run_at ≡ next)
      × (IsPublished next ⊎ IsFailure next ⊎ IsSkipped next ⊎ IsOrphan)

  abbrev pub Accounts : Type 0
  Accounts = IsDisabled ⊎ IsRun

module _ (env : Env) (now : Time) (row : ScheduledJob) (next : Time)
    (there : next_run_of env now row ≡ ok next) where
  -- The row whose next run is set.
  abbrev moved : ScheduledJob
  moved = record row { last_run_at = some now; next_run_at = next }

  recorded-IsRun :
      (creator : Uuid)
      → IsOn env row
      → row.created_by ≡ some creator
      → (result : Result (Uuid × JobStatus)) → publication env now next row creator ≡ result
      → IsRun env now row (is_ok result, recorded env moved result)
  recorded-IsRun creator on by (ok (job_id, status)) e =
      (next, there, refl, inl (on, (creator, by, ((job_id, status), e, refl)), refl, refl, refl))
  recorded-IsRun creator on by (err error) e =
      (next, there, refl, inr (inl (on, (creator, by, (error, e)), refl, refl, refl, refl)))

  executed-IsRun : IsOn env row → IsRun env now row (executed env moved row.next_run_at)
  unfolding create_execution build_idempotency_key
  executed-IsRun on = go row.created_by refl
    where
      go :
          (creator : Option Uuid)
          → row.created_by ≡ creator
          → let r = execution_of env moved row.next_run_at false none creator in
            IsRun env now row (is_ok r.0, r.1)
      go none e = (next, there, refl, inr (inr (inr (on, e, refl, refl, refl))))
      go (some creator) e = recorded-IsRun creator on e (publication env now next row creator) refl

  switched-IsRun :
      (code : String)
      → job_module row.job_type ≡ some code
      → (enabled : Bool) → is_module_enabled code env.switches ≡ enabled
      → IsRun env now row
          (if not enabled then (false, skipped moved code) else executed env moved row.next_run_at)
  switched-IsRun code of_type true on = executed-IsRun (λ other of_other.
      subst (λ c. is_module_enabled c env.switches ≡ true)
        (some_inj code other (sym of_type ∙ of_other)) on)
  switched-IsRun code of_type false off =
      (next, there, refl, inr (inr (inl ((code, of_type, off), refl, refl, refl))))

  by_module-IsRun :
      (code : Option String)
      → job_module row.job_type ≡ code
      → IsRun env now row (by_module env moved row.next_run_at code)
  by_module-IsRun none e = executed-IsRun (λ code of_type. absurd (cc (e, of_type)))
  by_module-IsRun (some code) e = switched-IsRun code e (is_module_enabled code env.switches) refl

-- Every run of a due row ends in one of five ways, each with its cause. If the next run cannot be
-- calculated, the row is disabled with one failure more. Otherwise the next run is set, and: if the
-- module of its type is off, the row is marked as skipped without a failure; if not, and the row has
-- no creator, neither status nor failures change; if its job is published, its id is kept and the
-- failures are reset; and if publishing raises, one failure is added and the row stays enabled.
pub advance_and_execute-Accounts :
    (env : Env) (now : Time) (row : ScheduledJob)
    → Accounts env now row (advance_and_execute env now row)
unfolding advance_and_execute
advance_and_execute-Accounts env now row = go (next_run_of env now row) refl
  where
    go :
        (r : Result Time)
        → next_run_of env now row ≡ r
        → Accounts env now row (advanced env now row r)
    go (err e) failed = inl ((e, failed), refl, refl, refl, refl, refl)
    go (ok next) there = inr (by_module-IsRun env now row next there (job_module row.job_type) refl)
