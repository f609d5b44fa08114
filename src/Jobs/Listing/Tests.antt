-- ===== src/Jobs/Listing/Tests.antt =====
-- Three jobs of two users.
use proyecto.Common.{ℕ, ◌≡◌, refl, true, false, none, [], ◌∷◌, map, arith}
use proyecto.Core.Errors.{err, not_found}
use proyecto.Jobs.Model.{JobBatchStatus, JobItemStatus, Job}
use proyecto.Jobs.Repository.{Db}
use proyecto.Jobs.Service.{get_job}
use proyecto.Jobs.Fixtures.{item_in, batch_in, job_of}
use proyecto.Jobs.Listing.{JobFilter, page, listed, list_jobs, list_items}
use proyecto.Jobs.Listing.Laws.{IsListing, list_jobs-IsListing}

abbrev made_by : ℕ → ℕ → Job
made_by id user_id =
    record (job_of (batch_in JobBatchStatus.completed (item_in JobItemStatus.failed ∷ []))) {
      id = id;
      created_by = user_id;
    }

abbrev table : Db
table = made_by 1 7 ∷ made_by 2 8 ∷ made_by 3 7 ∷ []

abbrev no_filter : JobFilter
no_filter = record { user_id = none; job_type = none; status = none; scheduled_job_id = none }

-- The user sees his own jobs, one to a page.
list_jobs_run :
    (map (λ j. j.id) (list_jobs 7 false false no_filter 1 0 table).items ≡ 3 ∷ [])
    × ((list_jobs 7 false false no_filter 1 0 table).has_more ≡ true)
    × (map (λ j. j.id) (list_jobs 7 false false no_filter 1 1 table).items ≡ 1 ∷ [])
    × ((list_jobs 7 false false no_filter 1 1 table).has_more ≡ false)
unfolding listed page
list_jobs_run = (refl, refl, refl, refl)

-- The items of a job of another user are not found.
list_items_run :
    list_items (λ items. items) 2 7 false none 50 0 table ≡ err (not_found "Tarea no encontrada")
unfolding list_items get_job
list_items_run = refl

list_jobs-IsListing_example :
    IsListing 7 false false no_filter table
      (λ offset. list_jobs 7 false false no_filter 1 offset table)
list_jobs-IsListing_example = list_jobs-IsListing 7 false false no_filter 1 table (omega arith)
