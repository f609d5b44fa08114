-- ===== src/Jobs/Cancel/Effect.antt =====
-- `cancel_job` on every branch.
use proyecto.Common.{
  Option, if◌then◌else◌, ◌≡◌, refl, sym, ap, ◌∙◌, Bool, true, false, none, some, map, arith, count,
  All, gather, length-map,
}
use proyecto.Core.Errors.{Error, ok, err, conflict, not_found}
use proyecto.Jobs.Model.{
  Uuid, Time, JobStatus, Job, is_terminal_job, is_succeeded, is_failed, job_items,
}
use proyecto.Jobs.Repository.{
  Db, get_by_id, put_job, get_by_id-put_job_self, get_by_id_self, id_of-get_by_id,
}
use proyecto.Jobs.Invariant.{IsConsistent, is_running_batch}
use proyecto.Jobs.Progress.{refreshed}
use proyecto.Jobs.Progress.Laws.{refreshed_outcome, refreshed-IsConsistent, refresh_progress_found}
use proyecto.Jobs.Service.Laws.{get_job_allowed}
use mathlib.Core.Path.{subst}
use proyecto.Jobs.Service.{get_job, can_access}
use proyecto.Jobs.Cancel.{cancel_batch, request_cancel, cancel_job}
use proyecto.Jobs.Cancel.Laws.{
  IsStopped, cancel_batches-IsStopped, cancel_idle_batches, cancel_batches-IsSound,
  count-cancel_batches, length-cancel_batches, IsUntouched-succeeded, IsUntouched-failed,
}

module _ (now : Time) (user_id : Uuid) (job : Job) where
  request_cancel-IsConsistent : IsConsistent job → IsConsistent (request_cancel now user_id job)
  unfolding request_cancel
  request_cancel-IsConsistent c = record {
    batch_total = c.batch_total ∙ sym (length-map (cancel_batch now) job.batches);
    item_total = c.item_total ∙ sym (length-cancel_batches now job.batches);
    sound = cancel_batches-IsSound now job.batches c.sound;
  }

  abbrev pub cancelled_job : Job
  cancelled_job = refreshed now (request_cancel now user_id job)

  batches-cancelled_job : cancelled_job.batches ≡ map (cancel_batch now) job.batches
  unfolding refreshed request_cancel
  batches-cancelled_job = ground arith

  batches-request_cancel :
      (request_cancel now user_id job).batches ≡ map (cancel_batch now) job.batches
  unfolding request_cancel
  batches-request_cancel = refl

  requested_first : (request_cancel now user_id job).cancel_requested_at ≡ some now
  unfolding request_cancel
  requested_first = refl

  requested_lem : cancelled_job.cancel_requested_at ≡ some now
  unfolding refreshed request_cancel
  requested_lem = ground arith

  id-cancelled_job : cancelled_job.id ≡ job.id
  unfolding refreshed request_cancel
  id-cancelled_job = ground arith

  id-request_cancel : (request_cancel now user_id job).id ≡ job.id
  unfolding request_cancel
  id-request_cancel = refl

  -- The rows after a cancellation.
  pub record IsCancelled (after : Job) : Type 0 where
    pub consistent : IsConsistent after
    pub requested : after.cancel_requested_at ≡ some now
    pub stopped : All IsStopped after.batches
    pub succeeded_kept : count is_succeeded (job_items after) ≡ count is_succeeded (job_items job)
    pub failed_kept : count is_failed (job_items after) ≡ count is_failed (job_items job)

  cancelled_job-IsCancelled : IsConsistent job → IsCancelled cancelled_job
  cancelled_job-IsCancelled c = record {
    consistent =
        refreshed-IsConsistent now (request_cancel now user_id job) (request_cancel-IsConsistent c);
    requested = requested_lem;
    stopped = rw batches-cancelled_job (cancel_batches-IsStopped now job.batches);
    succeeded_kept =
        ap (λ bs. count is_succeeded (gather (λ b. b.items) bs)) batches-cancelled_job
        ∙ count-cancel_batches is_succeeded now job.batches IsUntouched-succeeded;
    failed_kept =
        ap (λ bs. count is_failed (gather (λ b. b.items) bs)) batches-cancelled_job
        ∙ count-cancel_batches is_failed now job.batches IsUntouched-failed;
  }

  -- With no batch under way, nothing is left to wait for.
  status-cancelled_job :
      IsConsistent job
      → All (λ b. is_running_batch b.status ≡ false) job.batches
      → cancelled_job.status ≡ JobStatus.cancelled
  status-cancelled_job c idle =
      let outcome =
        refreshed_outcome now (request_cancel now user_id job) (request_cancel-IsConsistent c)
          (rw batches-request_cancel (cancel_idle_batches now job.batches idle)) in
      outcome.0.1 (λ e. cc (e, requested_first))

module _ (now : Time) (job_id user_id : Uuid) (can_cancel_all : Bool) (db : Db) where
  -- The database once the cancellation is recorded, and once the progress is refreshed.
  recorded : Job → Db
  recorded job = put_job (request_cancel now user_id job) db

  abbrev after_refresh : Job → Db
  after_refresh job = put_job (cancelled_job now user_id job) (recorded job)

  get_by_id-recorded :
      (job : Job)
      → get_by_id job_id db ≡ some job
      → get_by_id job.id (recorded job) ≡ some (request_cancel now user_id job)
  unfolding request_cancel recorded
  get_by_id-recorded job found =
      get_by_id-put_job_self db (request_cancel now user_id job) job
        (get_by_id_self job_id db job found)

  get_by_id-after_refresh :
      (job : Job)
      → get_by_id job_id db ≡ some job
      → get_by_id job.id (after_refresh job) ≡ some (cancelled_job now user_id job)
  get_by_id-after_refresh job found =
      let same = id-cancelled_job now user_id job in
      subst (λ k. get_by_id k (after_refresh job) ≡ some (cancelled_job now user_id job)) same
        (get_by_id-put_job_self (recorded job) (cancelled_job now user_id job)
          (request_cancel now user_id job)
          (subst (λ k. get_by_id k (recorded job) ≡ some (request_cancel now user_id job))
            (sym same) (get_by_id-recorded job found)))

  cancel_job_runs :
      (job : Job)
      → get_by_id job_id db ≡ some job
      → can_access job user_id can_cancel_all ≡ true
      → is_terminal_job job.status ≡ false
      → cancel_job now job_id user_id can_cancel_all db
        ≡ (ok (cancelled_job now user_id job), after_refresh job)
  unfolding cancel_job recorded
  cancel_job_runs job found allowed live =
      let refreshed_row =
        refresh_progress_found now job.id (recorded job) (request_cancel now user_id job)
          (get_by_id-recorded job found) in
      let reread =
        get_job_allowed job.id user_id true (after_refresh job) (cancelled_job now user_id job)
          (get_by_id-after_refresh job found) refl in
      rw (get_job_allowed job_id user_id can_cancel_all db job found allowed, live)
        (rw refreshed_row reread)

  -- `cancel_job` of a consistent job that its caller may cancel and that has not ended: the job
  -- that is returned is the row that the database then holds, it is consistent and its
  -- cancellation is requested, every batch has finished or is running, and the items that
  -- succeeded or failed stay as many.
  pub cancel_job_effect :
      (job : Job)
      → get_by_id job_id db ≡ some job
      → can_access job user_id can_cancel_all ≡ true
      → is_terminal_job job.status ≡ false
      → IsConsistent job
      → (after : Job) × ((cancel_job now job_id user_id can_cancel_all db).0 ≡ ok after)
        × (get_by_id job_id (cancel_job now job_id user_id can_cancel_all db).1 ≡ some after)
        × IsCancelled now user_id job after
  cancel_job_effect job found allowed live c =
      let runs = cancel_job_runs job found allowed live in
      (
        cancelled_job now user_id job,
        ap (λ r. r.0) runs,
        ap (λ r. get_by_id job_id r.1) runs
            ∙ subst (λ k. get_by_id k (after_refresh job) ≡ some (cancelled_job now user_id job))
                (id_of-get_by_id job_id db job found) (get_by_id-after_refresh job found),
        cancelled_job-IsCancelled now user_id job c,
      )

  -- `cancel_job` of a consistent job that its caller may cancel, that has not ended and of which no
  -- batch is running: the job is cancelled at once.
  pub cancel_job_idle :
      (job : Job)
      → get_by_id job_id db ≡ some job
      → can_access job user_id can_cancel_all ≡ true
      → is_terminal_job job.status ≡ false
      → IsConsistent job
      → All (λ b. is_running_batch b.status ≡ false) job.batches
      → (after : Job) × ((cancel_job now job_id user_id can_cancel_all db).0 ≡ ok after)
        × (after.status ≡ JobStatus.cancelled)
  cancel_job_idle job found allowed live c idle = (
    cancelled_job now user_id job,
    ap (λ r. r.0) (cancel_job_runs job found allowed live),
    status-cancelled_job now user_id job c idle,
  )

  -- Why a cancellation is refused: the row is missing, is of another user, or has ended.
  abbrev pub cancel_refusal : Option Job → Option Error
  cancel_refusal none = some (not_found "Tarea no encontrada")
  cancel_refusal (some job) =
      if can_access job user_id can_cancel_all
      then if is_terminal_job job.status
        then some (conflict "La tarea ya se encuentra finalizada")
        else none
      else some (not_found "Tarea no encontrada")

  -- `cancel_job` of a job that is unknown, is of another user or has ended raises the error for it, and
  -- writes nothing.
  pub cancel_job_refused :
      (e : Error)
      → cancel_refusal (get_by_id job_id db) ≡ some e
      → cancel_job now job_id user_id can_cancel_all db ≡ (err e, db)
  unfolding cancel_job get_job
  cancel_job_refused e h = ground (arith, h)
