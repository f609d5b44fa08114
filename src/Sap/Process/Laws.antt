-- ===== src/Sap/Process/Laws.antt =====
-- What `process` leaves of a batch, on every branch.
use proyecto.Common.{
  String, ◌≡◌, refl, sym, ◌∙◌, Bool, true, false, not, ◌||◌, inl, inr, Option, none, some, List, [],
  ◌∷◌, arith, length, All, Bool-cases, Option-cases, if◌then◌else◌,
}
use mathlib.Core.Path.{subst}
use proyecto.Common.Counting.{Holds, Fails}
use proyecto.Jobs.Model.{
  Uuid, Time, JobBatchStatus, JobItem, JobBatch, is_terminal_batch, is_pending, is_running,
}
use proyecto.Jobs.Invariant.{IsSound, Fits, is_processed}
use proyecto.Sap.World.{World, SapError, request, authentication, is_cancel_requested}
use proyecto.Sap.Rows.{mark_uncertain_items, cancel_pending, fail_pending, finish_batch, claim}
use proyecto.Sap.Rows.Laws.{
  mark_uncertain_idle, mark_uncertain-IsSound, cancel_pending-IsSound, finish_batch-IsSound,
  fail_pending-done, Fits-running,
}
use proyecto.Sap.Items.{Loop, process_items}
use proyecto.Sap.Items.Laws.{Left, process_items-Left, process_items-advances, length-advance}
use proyecto.Sap.Process.{
  Run, Answer, status, raised, settled, after_loop, after_error, logged_in, worked, run_claimed,
  run_open, process_row, task_matches,
}

-- The answer tells the state of the batch: ended with the status that is returned, or still held
-- where an error went on.
abbrev pub Tells : JobBatch → Answer → Type 0
Tells b (status s) = (b.status ≡ s) × (is_terminal_batch s ≡ true)
Tells b (raised e) = b.status ≡ JobBatchStatus.running
Tells b _ = Unit

abbrev pub IsRight : Run → Type 0
IsRight r = IsSound r.batch × Tells r.batch r.answer

IsRight-if :
    (test : Bool) (a b : Run)
    → (test ≡ true → IsRight a)
    → (test ≡ false → IsRight b)
    → IsRight (if test then a else b)
IsRight-if true a b ha hb = ha refl
IsRight-if false a b ha hb = hb refl

pub ended :
    (items : List JobItem)
    → All (Fails is_running) items
    → All (Fails is_pending) items
    → All (Holds is_processed) items
ended [] r p = tt
ended (i ∷ items) r p = (ground (arith, r.0, p.0), ended items r.1 p.1)

finish_batch_ended :
    (now : Time) (b : JobBatch) → is_terminal_batch (finish_batch now b).status ≡ true
unfolding finish_batch
finish_batch_ended now b = ground arith

cancel_pending_ended :
    (now : Time) (b : JobBatch) → is_terminal_batch (cancel_pending now b).status ≡ true
unfolding cancel_pending
cancel_pending_ended now b = refl

held-IsSound :
    (b : JobBatch) → b.total_items ≡ length b.items → b.status ≡ JobBatchStatus.running → IsSound b
held-IsSound b c held = record {
  counted = c;
  fits = subst (λ s. All (Fits s) b.items) (sym held) (Fits-running b.items);
}

module _ (w : World) (calls : List String) where
  settled-finish :
      (b : JobBatch)
      → b.total_items ≡ length b.items
      → All (Holds is_processed) b.items
      → IsRight (settled w b calls false)
  settled-finish b c done =
      (finish_batch-IsSound w.now b c done, (refl, finish_batch_ended w.now b))

  settled-cancel :
      (b : JobBatch)
      → b.total_items ≡ length b.items
      → All (Fails is_running) b.items
      → IsRight (settled w b calls true)
  settled-cancel b c idle =
      (cancel_pending-IsSound w.now b c idle, (refl, cancel_pending_ended w.now b))

  after_error-IsRight :
      (b : JobBatch) (e : SapError)
      → b.total_items ≡ length b.items
      → b.status ≡ JobBatchStatus.running
      → IsRight (after_error w b calls e)
  after_error-IsRight b (authentication text) c held =
      let (counted, done) = fail_pending-done w.now text b c in
      settled-finish (fail_pending w.now text b) counted done
  after_error-IsRight b (request code text) c held = (held-IsSound b c held, held)
  after_error-IsRight b e c held = (held-IsSound b c held, held)

module _ (w : World) where
  after_loop-IsRight :
      (b : JobBatch) (loop : Loop)
      → b.status ≡ JobBatchStatus.running
      → b.total_items ≡ length loop.items
      → Left loop
      → IsRight (after_loop w b loop)
  after_loop-IsRight b loop held c left = elim (Option-cases loop.raised) [
    | inr (e, raised_e) ↦
        rw (raised_e, after_loop) (after_error-IsRight w loop.calls (worked w b loop) e c held)
    | inl quiet ↦ elim (Bool-cases loop.stopped) [
      | inl stopped ↦
          rw (quiet, after_loop)
            (rw stopped (settled-cancel w loop.calls (worked w b loop) c (left quiet).0))
      | inr going ↦
          rw (quiet, after_loop)
            (rw going (
              settled-finish w loop.calls (worked w b loop) c
                (ended loop.items (left quiet).0 ((left quiet).1 going))))
    ]
  ]

  -- The loop keeps the number of items.
  loop_counted :
      (b : JobBatch)
      → b.total_items ≡ length b.items
      → b.total_items ≡ length (process_items w 0 b.items).items
  loop_counted b c =
      c
      ∙ sym (
          length-advance b.items (process_items w 0 b.items).items
            (process_items-advances w 0 b.items))

  logged_in-IsRight :
      (b : JobBatch) (login : Option SapError)
      → b.status ≡ JobBatchStatus.running
      → b.total_items ≡ length b.items
      → All (Fails is_running) b.items
      → IsRight (logged_in w b login)
  logged_in-IsRight b none held c idle =
      after_loop-IsRight b (process_items w 0 b.items) held (loop_counted b c)
        (process_items-Left w 0 b.items idle)
  logged_in-IsRight b (some e) held c idle = after_error-IsRight w [] b e c held

  run_claimed-IsRight :
      (b : JobBatch)
      → b.status ≡ JobBatchStatus.running
      → b.total_items ≡ length b.items
      → All (Fails is_running) b.items
      → IsRight (run_claimed w b)
  unfolding run_claimed
  run_claimed-IsRight b held c idle =
      elim (Bool-cases
        (is_cancel_requested w.status_at_start || is_cancel_requested w.status_after_claim)) [
          | inl cancelled ↦ rw cancelled (settled-cancel w [] b c idle)
          | inr live ↦ rw live (logged_in-IsRight b w.login held c idle)
        ]

  marked_right :
      (b : JobBatch)
      → IsSound b
      → let marked = mark_uncertain_items w.now b in
        (marked.total_items ≡ length marked.items)
        × All (Fails is_running) marked.items
        × IsSound marked
  unfolding mark_uncertain_items
  marked_right b s =
      let sound = mark_uncertain-IsSound w.now b s in
      (sound.counted, mark_uncertain_idle w.now b.items, sound)

  claimed-IsRight :
      (b : JobBatch)
      → b.total_items ≡ length b.items
      → All (Fails is_running) b.items
      → IsRight (run_claimed w (claim w.now b))
  unfolding claim
  claimed-IsRight b c idle = run_claimed-IsRight (claim w.now b) refl c idle

  run_open-IsRight : (b : JobBatch) → IsSound b → IsRight (run_open w b)
  unfolding run_open
  run_open-IsRight b s =
      let (counted, idle, sound) = marked_right b s in
      let marked = mark_uncertain_items w.now b in
      IsRight-if (is_cancel_requested w.loaded_status) _ _
        (λ _. settled-cancel w [] marked counted idle)
        (λ _. IsRight-if w.claims _ _ (λ _. claimed-IsRight marked counted idle) (λ _. (sound, tt)))

-- Whatever the database and SAP answer, `process` leaves a sound batch sound, and its answer tells the
-- truth about it: a status that is returned is the status of the batch, and an ended one; an error
-- that goes on leaves the batch as one that the worker still holds.
pub process_row-IsRight :
    (w : World) (task_id : Uuid) (batch : JobBatch)
    → IsSound batch
    → IsRight (process_row w task_id batch)
unfolding process_row
process_row-IsRight w task_id batch s =
    IsRight-if (not (task_matches batch task_id)) _ _ (λ _. (s, tt))
      (λ _.
        IsRight-if (is_terminal_batch batch.status) _ _ (λ over. (s, (refl, over)))
          (λ _. run_open-IsRight w batch s))
