-- ===== src/Sap/Rows/Laws.antt =====
-- Each write of the worker leaves the batch sound.
use proyecto.Common.{
  String, ◌≡◌, refl, sym, ◌∙◌, true, false, List, [], ◌∷◌, map, arith, length, All, length-map,
  Bool-cases, inl, inr,
}
use proyecto.Common.Counting.{Holds, Fails}
use proyecto.Jobs.Model.{Time, JobBatchStatus, JobItem, JobBatch, is_terminal_batch, is_running}
use proyecto.Jobs.Invariant.{IsSound, Fits, is_processed}
use proyecto.Jobs.Cancel.{cancel_item}
use proyecto.Sap.Rows.{
  uncertain_item, mark_uncertain_items, cancel_pending, fail_item, fail_pending, finish_batch,
  claim, reset_item, mark_retrying, keeps_result, mark_failed,
}

-- In a batch whose items all have an end any status is sound; with none under way, any status but
-- that of an ended batch; and a batch that a worker holds may have any items.
pub Fits-processed :
    (status : JobBatchStatus) (items : List JobItem)
    → All (Holds is_processed) items
    → All (Fits status) items
Fits-processed status [] h = tt
Fits-processed status (i ∷ items) h =
    ((λ _. ground (arith, h.0), λ _. h.0), Fits-processed status items h.1)

Fits-idle :
    (status : JobBatchStatus) (items : List JobItem)
    → is_terminal_batch status ≡ false
    → All (Fails is_running) items
    → All (Fits status) items
Fits-idle status [] live h = tt
Fits-idle status (i ∷ items) live h =
    ((λ _. h.0, λ ended. absurd (cc)), Fits-idle status items live h.1)

pub Fits-running : (items : List JobItem) → All (Fits JobBatchStatus.running) items
Fits-running [] = tt
Fits-running (i ∷ items) = ((λ held. absurd (cc), λ ended. absurd (cc)), Fits-running items)

module _ (now : Time) where
  pub mark_uncertain_idle :
      (items : List JobItem) → All (Fails is_running) (map (uncertain_item now) items)
  mark_uncertain_idle [] = tt
  mark_uncertain_idle (i ∷ items) = (ground arith, mark_uncertain_idle items)

  pub cancel_idle :
      (items : List JobItem)
      → All (Fails is_running) items
      → All (Holds is_processed) (map (cancel_item now) items)
  unfolding cancel_item
  cancel_idle [] h = tt
  cancel_idle (i ∷ items) h = (ground (arith, h.0), cancel_idle items h.1)

  fail-All :
      (error : String) (items : List JobItem)
      → All (Holds is_processed) (map (fail_item now error) items)
  fail-All error [] = tt
  fail-All error (i ∷ items) = (ground arith, fail-All error items)

  pub mark_uncertain-IsSound : (b : JobBatch) → IsSound b → IsSound (mark_uncertain_items now b)
  unfolding mark_uncertain_items
  mark_uncertain-IsSound b s = record {
    counted = s.counted ∙ sym (length-map (uncertain_item now) b.items);
    fits = uncertain_fits b.status b.items s.fits;
  }
    where
      uncertain_fits :
          (status : JobBatchStatus) (items : List JobItem)
          → All (Fits status) items
          → All (Fits status) (map (uncertain_item now) items)
      uncertain_fits status [] f = tt
      uncertain_fits status (i ∷ items) f =
          ((λ _. ground arith, λ ended. ground (arith, f.0)), uncertain_fits status items f.1)

  pub cancel_pending-IsSound :
      (b : JobBatch)
      → b.total_items ≡ length b.items
      → All (Fails is_running) b.items
      → IsSound (cancel_pending now b)
  unfolding cancel_pending
  cancel_pending-IsSound b c idle = record {
    counted = c ∙ sym (length-map (cancel_item now) b.items);
    fits =
        Fits-processed JobBatchStatus.cancelled (map (cancel_item now) b.items)
          (cancel_idle b.items idle);
  }

  pub finish_batch-IsSound :
      (b : JobBatch)
      → b.total_items ≡ length b.items
      → All (Holds is_processed) b.items
      → IsSound (finish_batch now b)
  unfolding finish_batch
  finish_batch-IsSound b c done = record {
    counted = c;
    fits = Fits-processed (finish_batch now b).status b.items done;
  }

  pub fail_pending-done :
      (error : String) (b : JobBatch)
      → b.total_items ≡ length b.items
      → ((fail_pending now error b).total_items ≡ length (fail_pending now error b).items)
        × All (Holds is_processed) (fail_pending now error b).items
  unfolding fail_pending
  fail_pending-done error b c =
      (c ∙ sym (length-map (fail_item now error) b.items), fail-All error b.items)

  pub claim-IsSound : (b : JobBatch) → b.total_items ≡ length b.items → IsSound (claim now b)
  unfolding claim
  claim-IsSound b c = record { counted = c; fits = Fits-running b.items }

  reset_idle : (items : List JobItem) → All (Fails is_running) (map reset_item items)
  reset_idle [] = tt
  reset_idle (i ∷ items) = (ground arith, reset_idle items)

  pub mark_retrying-IsSound :
      (error : String) (b : JobBatch)
      → b.total_items ≡ length b.items
      → IsSound (mark_retrying now error b)
  unfolding mark_retrying
  mark_retrying-IsSound error b c = record {
    counted = c ∙ sym (length-map reset_item b.items);
    fits = Fits-idle JobBatchStatus.retrying (map reset_item b.items) refl (reset_idle b.items);
  }

  pub mark_failed-IsSound :
      (error : String) (b : JobBatch) → IsSound b → IsSound (mark_failed now error b)
  unfolding mark_failed
  mark_failed-IsSound error b s = elim (Bool-cases (keeps_result b.status)) [
    | inl kept ↦ rw kept s
    | inr open_batch ↦
        let (counted, done) = fail_pending-done error b s.counted in
        rw open_batch (record {
          counted = counted;
          fits = Fits-processed JobBatchStatus.failed (fail_pending now error b).items done;
        })
  ]

  pub mark_failed_ended :
      (error : String) (b : JobBatch) → is_terminal_batch (mark_failed now error b).status ≡ true
  unfolding mark_failed
  mark_failed_ended error b = ground arith
