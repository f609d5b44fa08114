-- ===== src/Jobs/Cancel/Laws.antt =====
-- What a cancellation does to the rows of a job.
use proyecto.Common.{
  ◌≡◌, refl, sym, ◌∙◌, Bool, true, false, ◌⊎◌, inl, inr, List, [], ◌∷◌, map, arith, length, count,
  All, gather, length-map, count-append, length-append, Bool-cases,
}
use proyecto.Common.Counting.{Holds}
use proyecto.Jobs.Model.{
  Time, JobBatchStatus, JobItem, JobBatch, is_succeeded, is_failed, is_finished,
}
use proyecto.Jobs.Invariant.{IsSound, Fits, is_running_batch}
use proyecto.Jobs.Cancel.{cancel_item, cancel_batch, is_cancellable}

cancel_items-fit :
    (now : Time) (status : JobBatchStatus) (items : List JobItem)
    → is_cancellable status ≡ true
    → All (Fits status) items
    → All (Fits JobBatchStatus.cancelled) (map (cancel_item now) items)
unfolding cancel_item
cancel_items-fit now status [] h f = tt
cancel_items-fit now status (i ∷ items) h f =
    ((λ _. ground (arith, f.0), λ _. ground (arith, f.0)), cancel_items-fit now status items h f.1)

pub cancel_batch-IsSound : (now : Time) (b : JobBatch) → IsSound b → IsSound (cancel_batch now b)
unfolding cancel_batch
cancel_batch-IsSound now b s = elim (Bool-cases (is_cancellable b.status)) [
  | inl waiting ↦ rw waiting (record {
    counted = s.counted ∙ sym (length-map (cancel_item now) b.items);
    fits = cancel_items-fit now b.status b.items waiting s.fits;
  })
  | inr kept ↦ rw kept s
]

pub cancel_batches-IsSound :
    (now : Time) (batches : List JobBatch)
    → All IsSound batches
    → All IsSound (map (cancel_batch now) batches)
cancel_batches-IsSound now [] s = tt
cancel_batches-IsSound now (b ∷ batches) s =
    (cancel_batch-IsSound now b s.0, cancel_batches-IsSound now batches s.1)

-- The test looks at a status that a cancellation neither sets nor replaces.
abbrev pub IsUntouched : (JobItem → Bool) → Type 0
IsUntouched p = (now : Time) (i : JobItem) → p (cancel_item now i) ≡ p i

count-cancel_items :
    (p : JobItem → Bool) (now : Time) (items : List JobItem)
    → IsUntouched p
    → count p (map (cancel_item now) items) ≡ count p items
count-cancel_items p now [] h = refl
count-cancel_items p now (i ∷ items) h = ground (arith, h now i, count-cancel_items p now items h)

count-cancel_batch :
    (p : JobItem → Bool) (now : Time) (b : JobBatch)
    → IsUntouched p
    → count p (cancel_batch now b).items ≡ count p b.items
unfolding cancel_batch
count-cancel_batch p now b h = ground (arith, count-cancel_items p now b.items h)

length-cancel_batch :
    (now : Time) (b : JobBatch) → length (cancel_batch now b).items ≡ length b.items
unfolding cancel_batch
length-cancel_batch now b = ground (arith, length-map (cancel_item now) b.items)

pub count-cancel_batches :
    (p : JobItem → Bool) (now : Time) (batches : List JobBatch)
    → IsUntouched p
    → count p (gather (λ b. b.items) (map (cancel_batch now) batches))
      ≡ count p (gather (λ b. b.items) batches)
count-cancel_batches p now [] h = refl
count-cancel_batches p now (b ∷ batches) h =
    rw
      (
        count-append p (cancel_batch now b).items
            (gather (λ c. c.items) (map (cancel_batch now) batches)),
        count-append p b.items (gather (λ c. c.items) batches),
      )
      (omega (arith, count-cancel_batch p now b h, count-cancel_batches p now batches h))

pub IsUntouched-succeeded : IsUntouched is_succeeded
unfolding cancel_item
IsUntouched-succeeded now i = ground arith

pub IsUntouched-failed : IsUntouched is_failed
unfolding cancel_item
IsUntouched-failed now i = ground arith

-- No batch is left that a worker could still start.
abbrev pub IsStopped : JobBatch → Type 0
IsStopped b = (is_finished b ≡ true) ⊎ (b.status ≡ JobBatchStatus.running)

cancel_batch-IsStopped : (now : Time) (b : JobBatch) → IsStopped (cancel_batch now b)
unfolding cancel_batch
cancel_batch-IsStopped now b = ground arith

pub cancel_batches-IsStopped :
    (now : Time) (batches : List JobBatch) → All IsStopped (map (cancel_batch now) batches)
cancel_batches-IsStopped now [] = tt
cancel_batches-IsStopped now (b ∷ batches) =
    (cancel_batch-IsStopped now b, cancel_batches-IsStopped now batches)

pub length-cancel_batches :
    (now : Time) (batches : List JobBatch)
    → length (gather (λ b. b.items) (map (cancel_batch now) batches))
      ≡ length (gather (λ b. b.items) batches)
length-cancel_batches now [] = refl
length-cancel_batches now (b ∷ batches) =
    rw
      (
        length-append (cancel_batch now b).items
            (gather (λ c. c.items) (map (cancel_batch now) batches)),
        length-append b.items (gather (λ c. c.items) batches),
      )
      (omega (arith, length-cancel_batch now b, length-cancel_batches now batches))

cancel_idle_batch :
    (now : Time) (b : JobBatch)
    → is_running_batch b.status ≡ false
    → is_finished (cancel_batch now b) ≡ true
unfolding cancel_batch
cancel_idle_batch now b idle = ground arith

-- Where no batch is running, a cancellation finishes all.
pub cancel_idle_batches :
    (now : Time) (batches : List JobBatch)
    → All (λ b. is_running_batch b.status ≡ false) batches
    → All (Holds is_finished) (map (cancel_batch now) batches)
cancel_idle_batches now [] idle = tt
cancel_idle_batches now (b ∷ batches) idle =
    (cancel_idle_batch now b idle.0, cancel_idle_batches now batches idle.1)
