-- ===== src/Jobs/Retry/Tests.antt =====
-- Retries of a job that has ended with one failed item.
use proyecto.Common.{◌≡◌, refl, false, none, some, [], ◌∷◌, ◌++◌, arith}
use proyecto.Core.Errors.{◌>>◌}
use proyecto.Jobs.Service.{dispatch, get_job}
use proyecto.Jobs.Model.{JobStatus, JobBatchStatus, JobItemStatus, Job, job_items}
use proyecto.Jobs.Fixtures.{item_in, batch_in, job_of}
use proyecto.Jobs.Repository.{Db, get_by_id, get_failed_references, get_dispatchable_batches}
use proyecto.Jobs.Batching.Laws.{references_of}
use proyecto.Jobs.Create.{Surroundings, new_job}
use proyecto.Jobs.Retry.{retry_job, retry_request}
use proyecto.Jobs.Retry.Laws.{retry_job_child}

abbrev failed_job : Job
failed_job =
    record (job_of (
      batch_in JobBatchStatus.completed_with_errors (
        item_in JobItemStatus.failed
        ∷ record (item_in JobItemStatus.succeeded) { reference = "20" }
        ∷ []))) { status = JobStatus.completed_with_errors }

abbrev jobs : Db
jobs = failed_job ∷ []

abbrev surroundings : Surroundings
surroundings = record { job_id = 2; batch_id = λ n. n; committed_meanwhile = [] }

retry_job_child_example :
    let child =
      new_job surroundings (retry_request failed_job 7 5) (get_failed_references failed_job) in
    (retry_job surroundings none 1 7 false 5 jobs
      ≡ (do dispatch none child.id; get_job child.id 7 false) ((jobs ++ []) ++ child ∷ []))
    × (references_of (job_items child) ≡ get_failed_references failed_job)
    × (child.parent_job_id ≡ some 1)
unfolding get_by_id get_failed_references get_dispatchable_batches
retry_job_child_example =
    retry_job_child surroundings none 1 7 false 5 jobs failed_job refl refl refl refl (refl, tt)
      (omega arith)
