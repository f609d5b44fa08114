-- ===== src/Payments/Email/Runs.antt =====
-- What `process` leaves of a batch of e-mails, on every branch.
use proyecto.Common.{
  ◌≡◌, refl, sym, ◌∙◌, Bool, true, false, not, List, [], map, arith, length, length-map, All,
  Bool-cases, inl, inr, if◌then◌else◌,
}
use proyecto.Common.Counting.{Holds, Fails}
use proyecto.Jobs.Model.{Uuid, JobBatchStatus, JobItem, JobBatch, is_running, is_terminal_batch}
use proyecto.Jobs.Invariant.{IsSound, is_processed}
use proyecto.Jobs.Cancel.{cancel_item}
use proyecto.Sap.World.{is_cancel_requested}
use proyecto.Sap.Rows.{claim}
use proyecto.Sap.Rows.Laws.{Fits-processed, cancel_idle}
use proyecto.Sap.Process.{task_matches}
use proyecto.Sap.Process.Laws.{ended}
use proyecto.Sap.Items.Laws.{pending_references}
use proyecto.Payments.Email.{
  MailWorld, Mails, send_items, cancel_mails, finish_mails, MailRun, MailAnswer, mails_status,
  mailed, after_mails, send_claimed, send_batch,
}
use proyecto.Payments.Email.Laws.{
  AllUntouched, IsPrefix, LeftMails, untouched_self, untouched_cancel, length-untouched,
  send_items-calls, send_items-untouched, send_items-Left,
}

-- A status that is returned is the one of the batch, which has ended.
abbrev pub AnswerTells : JobBatch → MailAnswer → Type 0
AnswerTells b (mails_status s) = (b.status ≡ s) × (is_terminal_batch s ≡ true)
AnswerTells b _ = Unit

abbrev pub IsDelivery : List JobItem → MailRun → Type 0
IsDelivery items r =
    IsPrefix r.calls (pending_references items)
    × AllUntouched items r.batch.items
    × AnswerTells r.batch r.answer

-- Each branch of a test, under the test
branch :
    (P : MailRun → Type 0) (test : Bool) (a b : MailRun)
    → (test ≡ true → P a)
    → (test ≡ false → P b)
    → P (if test then a else b)
branch P true a b ha hb = ha refl
branch P false a b ha hb = hb refl

module _ (w : MailWorld) where
  cancelled-ends : (b : JobBatch) → is_terminal_batch (cancel_mails w.now b).status ≡ true
  unfolding cancel_mails
  cancelled-ends b = refl

  finished-ends : (b : JobBatch) → is_terminal_batch (finish_mails w.now b).status ≡ true
  unfolding finish_mails
  finished-ends b = ground arith

  cancelled-untouched :
      (items : List JobItem) (b : JobBatch)
      → AllUntouched items b.items
      → AllUntouched items (cancel_mails w.now b).items
  unfolding cancel_mails
  cancelled-untouched items b h = untouched_cancel w.now items b.items h

  finished-untouched :
      (items : List JobItem) (b : JobBatch)
      → AllUntouched items b.items
      → AllUntouched items (finish_mails w.now b).items
  unfolding finish_mails
  finished-untouched items b h = h

  after-IsDelivery :
      (items : List JobItem) (b : JobBatch) (m : Mails)
      → IsPrefix m.calls (pending_references items)
      → AllUntouched items m.items
      → IsDelivery items (after_mails w b m)
  after-IsDelivery items b m sent kept = elim (Bool-cases m.stopped) [
    | inl stopped ↦
        rw (stopped, after_mails)
          (
            sent,
            cancelled-untouched items (mailed w b m) kept,
            (refl, cancelled-ends (mailed w b m)),
          )
    | inr going ↦
        rw (going, after_mails)
          (sent, finished-untouched items (mailed w b m) kept, (refl, finished-ends (mailed w b m)))
  ]

  nothing : (items : List JobItem) → IsPrefix [] (pending_references items)
  nothing items = (pending_references items, refl)

  claimed-IsDelivery : (b : JobBatch) → IsDelivery b.items (send_claimed w (claim w.now b))
  unfolding send_claimed claim
  claimed-IsDelivery b =
      branch (IsDelivery b.items) (is_cancel_requested w.status_after_claim) _ _
        (λ _. (
          nothing b.items,
          cancelled-untouched b.items (claim w.now b) (untouched_self b.items),
          (refl, cancelled-ends (claim w.now b)),
        ))
        (λ _.
          after-IsDelivery b.items (claim w.now b) (send_items w 0 b.items)
            (send_items-calls w 0 b.items) (send_items-untouched w 0 b.items))

-- Whatever the database, the files and the mail server answer, the mails that are tried are those of
-- items that waited, in order and each once, and an item that did not wait stays as it is: no result
-- is sent again or lost. A status that is returned is the status of the batch, and an ended one. So
-- an item that a worker which was killed left as RUNNING is still RUNNING in a batch that has ended.
pub send_batch-IsDelivery :
    (w : MailWorld) (task_id : Uuid) (batch : JobBatch)
    → IsDelivery batch.items (send_batch w task_id batch)
unfolding send_batch
send_batch-IsDelivery w task_id batch =
    branch (IsDelivery batch.items) (not (task_matches batch task_id)) _ _
      (λ _. (nothing w batch.items, untouched_self batch.items, tt))
      (λ _.
        branch (IsDelivery batch.items) (is_terminal_batch batch.status) _ _
          (λ over. (nothing w batch.items, untouched_self batch.items, (refl, over)))
          (λ _.
            branch (IsDelivery batch.items) w.claims _ _ (λ _. claimed-IsDelivery w batch)
              (λ _. (nothing w batch.items, untouched_self batch.items, tt))))

module _ (w : MailWorld) where
  cancelled-IsSound :
      (b : JobBatch)
      → b.total_items ≡ length b.items
      → All (Fails is_running) b.items
      → IsSound (cancel_mails w.now b)
  unfolding cancel_mails
  cancelled-IsSound b c idle = record {
    counted = c ∙ sym (length-map (cancel_item w.now) b.items);
    fits =
        Fits-processed JobBatchStatus.cancelled (map (cancel_item w.now) b.items)
          (cancel_idle w.now b.items idle);
  }

  finished-IsSound :
      (b : JobBatch)
      → b.total_items ≡ length b.items
      → All (Holds is_processed) b.items
      → IsSound (finish_mails w.now b)
  unfolding finish_mails
  finished-IsSound b c done = record {
    counted = c;
    fits = Fits-processed (finish_mails w.now b).status b.items done;
  }

  after-IsSound :
      (b : JobBatch) (m : Mails)
      → b.total_items ≡ length m.items
      → LeftMails m
      → IsSound (after_mails w b m).batch
  after-IsSound b m c left = elim (Bool-cases m.stopped) [
    | inl stopped ↦ rw (stopped, after_mails) (cancelled-IsSound (mailed w b m) c left.0)
    | inr going ↦
        rw (going, after_mails)
          (finished-IsSound (mailed w b m) c (ended m.items left.0 (left.1 going)))
  ]

  claimed-IsSound :
      (b : JobBatch)
      → b.total_items ≡ length b.items
      → All (Fails is_running) b.items
      → IsSound (send_claimed w (claim w.now b)).batch
  unfolding send_claimed claim
  claimed-IsSound b c idle =
      branch (λ r. IsSound r.batch) (is_cancel_requested w.status_after_claim) _ _
        (λ _. cancelled-IsSound (claim w.now b) c idle)
        (λ _.
          after-IsSound (claim w.now b) (send_items w 0 b.items)
            (c
              ∙ sym (
                  length-untouched b.items (send_items w 0 b.items).items
                    (send_items-untouched w 0 b.items)))
            (send_items-Left w 0 b.items idle))

-- A batch of e-mails that is sound, and that no worker left with an item under way, is sound after
-- `process`: a batch that has ended has a result for each of its items.
pub send_batch-IsSound :
    (w : MailWorld) (task_id : Uuid) (batch : JobBatch)
    → IsSound batch
    → All (Fails is_running) batch.items
    → IsSound (send_batch w task_id batch).batch
unfolding send_batch
send_batch-IsSound w task_id batch s idle =
    branch (λ r. IsSound r.batch) (not (task_matches batch task_id)) _ _ (λ _. s)
      (λ _.
        branch (λ r. IsSound r.batch) (is_terminal_batch batch.status) _ _ (λ _. s)
          (λ _.
            branch (λ r. IsSound r.batch) w.claims _ _ (λ _. claimed-IsSound w batch s.counted idle)
              (λ _. s)))
