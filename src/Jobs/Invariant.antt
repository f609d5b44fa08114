-- ===== src/Jobs/Invariant.antt =====
-- What holds of the rows of a job between two transactions.
use proyecto.Common.{
  ◌+◌, ◌≡◌, refl, Bool, true, false, List, [], ◌∷◌, arith, length, count, All, gather, ◌||◌,
}
use proyecto.Common.Counting.{Holds, All-append, All-imp}
use proyecto.Jobs.Model.{
  JobBatchStatus, JobItem, JobBatch, Job, is_running, is_succeeded, is_failed, is_cancelled,
  is_terminal_batch, is_finished, job_items,
}

-- An item that no worker will touch again.
abbrev pub is_processed : JobItem → Bool
is_processed i = is_succeeded i || is_failed i || is_cancelled i

abbrev pub is_running_batch : JobBatchStatus → Bool
is_running_batch JobBatchStatus.running = true
is_running_batch _ = false

-- The items of a batch in this status: only a batch that a worker holds has one under way, and a
-- batch that has finished has none left.
abbrev pub Fits : JobBatchStatus → JobItem → Type 0
Fits status i =
    (is_running_batch status ≡ false → is_running i ≡ false)
    × (is_terminal_batch status ≡ true → is_processed i ≡ true)

pub record IsSound (b : JobBatch) : Type 0 where
  pub counted : b.total_items ≡ length b.items
  pub fits : All (Fits b.status) b.items

pub record IsConsistent (job : Job) : Type 0 where
  pub batch_total : job.total_batches ≡ length job.batches
  pub item_total : job.total_items ≡ length (job_items job)
  pub sound : All IsSound job.batches

-- What the three counters leave out of a list of items.
pub processed_count :
    (items : List JobItem)
    → count is_succeeded items + count is_failed items + count is_cancelled items
      ≡ count is_processed items
processed_count [] = refl
processed_count (i ∷ items) = ground (arith, processed_count items)

finished_items :
    (status : JobBatchStatus) (items : List JobItem)
    → is_terminal_batch status ≡ true
    → All (Fits status) items
    → All (Holds is_processed) items
finished_items status items h = All-imp (Fits status) (Holds is_processed) items (λ i f. f.1 h)

-- Once every batch has finished, every item of the job has been processed.
pub All-processed :
    (batches : List JobBatch)
    → All IsSound batches
    → All (Holds is_finished) batches
    → All (Holds is_processed) (gather (λ b. b.items) batches)
All-processed [] s h = tt
All-processed (b ∷ batches) s h =
    All-append (Holds is_processed) b.items (gather (λ c. c.items) batches)
      (finished_items b.status b.items h.0 s.0.fits) (All-processed batches s.1 h.1)
