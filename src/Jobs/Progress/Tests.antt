-- ===== src/Jobs/Progress/Tests.antt =====
-- A job of one batch with a result that is good and one that is not, and what its progress is.
use proyecto.Common.{◌<◌, ◌≡◌, ◌≢◌, ◌↔◌, refl, none, [], ◌∷◌, count, All}
use proyecto.Common.Counting.{Fails}
use proyecto.Jobs.Model.{
  JobStatus, JobBatchStatus, JobItemStatus, Job, is_failed, is_succeeded, job_items,
}
use proyecto.Jobs.Fixtures.{item_in, batch_in, job_of}
use proyecto.Jobs.Invariant.{IsConsistent}
use proyecto.Jobs.Progress.{refreshed}
use proyecto.Jobs.Progress.Laws.{refreshed_outcome}

abbrev mixed_job : Job
mixed_job = job_of (
    batch_in JobBatchStatus.completed_with_errors
      (item_in JobItemStatus.succeeded ∷ item_in JobItemStatus.failed ∷ []))

abbrev running_job : Job
running_job = job_of (
    batch_in JobBatchStatus.running
      (item_in JobItemStatus.succeeded ∷ item_in JobItemStatus.running ∷ []))

mixed_job-IsConsistent : IsConsistent mixed_job
mixed_job-IsConsistent = record {
  batch_total = refl;
  item_total = refl;
  sound = (
    record { counted = refl; fits = ((λ _. refl, λ _. refl), ((λ _. refl, λ _. refl), tt)) },
    tt,
  );
}

running_job-IsConsistent : IsConsistent running_job
running_job-IsConsistent = record {
  batch_total = refl;
  item_total = refl;
  sound =
      (record { counted = refl; fits = ((λ _. refl, λ _. refl), ((λ h. cc, λ h. cc), tt)) }, tt);
}

-- One item of each kind: the job completed with errors.
refreshed_run :
    ((refreshed 60 mixed_job).status ≡ JobStatus.completed_with_errors)
    × ((refreshed 60 running_job).processed_items ≡ 1)
unfolding refreshed
refreshed_run = (refl, refl)

refreshed_outcome_example :
    let status = (refreshed 60 mixed_job).status in
    let items = job_items mixed_job in
    ((status ≡ JobStatus.cancelled) ↔ (mixed_job.cancel_requested_at ≢ none))
    × ((status ≡ JobStatus.completed)
        ↔ ((mixed_job.cancel_requested_at ≡ none) × All (Fails is_failed) items))
    × ((status ≡ JobStatus.failed) ↔ (
        (mixed_job.cancel_requested_at ≡ none)
        × (0 < count is_failed items)
        × All (Fails is_succeeded) items))
    × ((status ≡ JobStatus.completed_with_errors) ↔ (
        (mixed_job.cancel_requested_at ≡ none)
        × (0 < count is_failed items)
        × (0 < count is_succeeded items)))
refreshed_outcome_example = refreshed_outcome 60 mixed_job mixed_job-IsConsistent (refl, tt)
