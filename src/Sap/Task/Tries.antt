-- ===== src/Sap/Task/Tries.antt =====
-- What one run of a batch, before its errors are handled, does to the items.
use proyecto.Common.{
  String, ◌≡◌, refl, ap, ◌⊎◌, ◌∙◌, Bool, true, false, not, ◌||◌, Option, none, some, List, [], ◌++◌,
  map, arith, Bool-cases, Option-cases, inl, inr, if◌then◌else◌,
}
use proyecto.Jobs.Model.{Uuid, JobItem, JobBatch, is_terminal_batch}
use proyecto.Jobs.Cancel.{cancel_item}
use proyecto.Sap.World.{World, SapError, request, authentication, is_cancel_requested}
use proyecto.Sap.Rows.{
  uncertain_item, mark_uncertain_items, cancel_pending, fail_item, fail_pending, finish_batch,
  claim,
}
use proyecto.Sap.Items.{Loop, process_items}
use proyecto.Sap.Items.Laws.{pending_references, process_items-calls, process_items-advances}
use proyecto.Sap.Process.{
  Run, Answer, stale_task, not_claimed, raised, settled, after_loop, after_error, logged_in, worked,
  run_claimed, run_open, process_row, task_matches,
}
use proyecto.Sap.Task.Kept.{
  AllKept, kept_map, kept_trans, kept_advance, kept_self, pending-uncertain, kept_uncertain,
  AllMarked, marked_uncertain, marked_kept,
}

-- What one run does to the items it starts with.
abbrev pub IsOnce : List JobItem → Run → Type 0
IsOnce items r =
    ((more : List String) × (r.calls ++ more ≡ pending_references items))
    × AllKept items r.batch.items

pub IsOnce-if :
    (items : List JobItem) (test : Bool) (a b : Run)
    → IsOnce items a
    → IsOnce items b
    → IsOnce items (if test then a else b)
IsOnce-if items true a b ha hb = ha
IsOnce-if items false a b ha hb = hb

module _ (w : World) where
  pub kept_cancel : (b : JobBatch) → AllKept b.items (cancel_pending w.now b).items
  unfolding cancel_pending
  kept_cancel b = kept_map (cancel_item w.now) b.items (λ i p. ground arith)

  pub kept_finish : (b : JobBatch) → AllKept b.items (finish_batch w.now b).items
  unfolding finish_batch
  kept_finish b = kept_self b.items

  pub kept_fail : (text : String) (b : JobBatch) → AllKept b.items (fail_pending w.now text b).items
  unfolding fail_pending
  kept_fail text b = kept_map (fail_item w.now text) b.items (λ i p. ground arith)

  pub kept_settled :
      (b : JobBatch) (calls : List String) (stopped : Bool)
      → AllKept b.items (settled w b calls stopped).batch.items
  kept_settled b calls true = kept_cancel b
  kept_settled b calls false = kept_finish b

  pub kept_error :
      (b : JobBatch) (calls : List String) (e : SapError)
      → AllKept b.items (after_error w b calls e).batch.items
  kept_error b calls (authentication text) =
      let failed = fail_pending w.now text b in
      kept_trans b.items failed.items (settled w failed calls false).batch.items (kept_fail text b)
        (kept_settled failed calls false)
  kept_error b calls (request code text) = kept_self b.items
  kept_error b calls e = kept_self b.items

  pub calls_error :
      (b : JobBatch) (calls : List String) (e : SapError) → (after_error w b calls e).calls ≡ calls
  calls_error b calls (authentication text) = refl
  calls_error b calls (request code text) = refl
  calls_error b calls e = refl

  pub after_loop-IsOnce :
      (b : JobBatch) (loop : Loop)
      → ((more : List String) × (loop.calls ++ more ≡ pending_references b.items))
      → AllKept b.items loop.items
      → IsOnce b.items (after_loop w b loop)
  after_loop-IsOnce b loop (more, sent) kept = elim (Option-cases loop.raised) [
    | inl quiet ↦
        rw (quiet, after_loop)
          (
            (more, sent),
            kept_trans b.items loop.items
                (settled w (worked w b loop) loop.calls loop.stopped).batch.items kept
                (kept_settled (worked w b loop) loop.calls loop.stopped),
          )
    | inr (e, raised_e) ↦
        let next = after_error w (worked w b loop) loop.calls e in
        rw (raised_e, after_loop)
          (
            (more, ap (λ t. t ++ more) (calls_error (worked w b loop) loop.calls e) ∙ sent),
            kept_trans b.items loop.items next.batch.items kept
                (kept_error (worked w b loop) loop.calls e),
          )
  ]

  pub logged_in-IsOnce :
      (b : JobBatch) (login : Option SapError) → IsOnce b.items (logged_in w b login)
  logged_in-IsOnce b none =
      after_loop-IsOnce b (process_items w 0 b.items) (process_items-calls w 0 b.items) (
        kept_advance b.items (process_items w 0 b.items).items (process_items-advances w 0 b.items))
  logged_in-IsOnce b (some e) = (
    (pending_references b.items, ap (λ t. t ++ pending_references b.items) (calls_error b [] e)),
    kept_error b [] e,
  )

  pub run_claimed-IsOnce : (b : JobBatch) → IsOnce b.items (run_claimed w b)
  unfolding run_claimed
  run_claimed-IsOnce b =
      IsOnce-if b.items
        (is_cancel_requested w.status_at_start || is_cancel_requested w.status_after_claim)
        (settled w b [] true) (logged_in w b w.login)
        ((pending_references b.items, refl), kept_settled b [] true) (logged_in-IsOnce b w.login)

  pub claimed-IsOnce : (b : JobBatch) → IsOnce b.items (run_claimed w (claim w.now b))
  unfolding claim
  claimed-IsOnce b = run_claimed-IsOnce (claim w.now b)

  pub run_marked-IsOnce :
      (b : JobBatch)
      → IsOnce b.items (
          if is_cancel_requested w.loaded_status
          then settled w b [] true
          else if w.claims
          then run_claimed w (claim w.now b)
          else record { batch = b; calls = []; answer = not_claimed })
  run_marked-IsOnce b =
      IsOnce-if b.items (is_cancel_requested w.loaded_status) _ _
        ((pending_references b.items, refl), kept_settled b [] true)
        (IsOnce-if b.items w.claims _ _ (claimed-IsOnce b)
          ((pending_references b.items, refl), kept_self b.items))

pub run_open-IsOnce : (w : World) (b : JobBatch) → IsOnce b.items (run_open w b)
unfolding run_open mark_uncertain_items
run_open-IsOnce w b =
    let ((more, sent), kept) = run_marked-IsOnce w (mark_uncertain_items w.now b) in
    (
      (more, sent ∙ pending-uncertain w.now b.items),
      kept_trans b.items (map (uncertain_item w.now) b.items) (run_open w b).batch.items
          (kept_uncertain w.now b.items) kept,
    )

pub process_row-IsOnce :
    (w : World) (task_id : Uuid) (b : JobBatch) → IsOnce b.items (process_row w task_id b)
unfolding process_row
process_row-IsOnce w task_id b =
    let nothing : IsOnce b.items (record { batch = b; calls = []; answer = stale_task }) =
      ((pending_references b.items, refl), kept_self b.items) in
    IsOnce-if b.items (not (task_matches b task_id)) _ _ nothing
      (IsOnce-if b.items (is_terminal_batch b.status) _ _ nothing (run_open-IsOnce w b))

abbrev pub is_raised : Answer → Bool
is_raised (raised e) = true
is_raised _ = false

-- Either nothing was raised and the batch is as it was, or what was under way has been marked.
abbrev pub IsMarked : List JobItem → Run → Answer → Type 0
IsMarked items r a =
    ((is_raised a ≡ false) × (r.batch.items ≡ items)) ⊎ AllMarked items r.batch.items

pub run_open-IsMarked : (w : World) (b : JobBatch) → AllMarked b.items (run_open w b).batch.items
unfolding run_open mark_uncertain_items
run_open-IsMarked w b =
    marked_kept b.items (map (uncertain_item w.now) b.items) (run_open w b).batch.items
      (marked_uncertain w.now b.items) (run_marked-IsOnce w (mark_uncertain_items w.now b)).1

pub process_row-IsMarked :
    (w : World) (task_id : Uuid) (b : JobBatch)
    → let r = process_row w task_id b in IsMarked b.items r r.answer
unfolding process_row
process_row-IsMarked w task_id b = elim (Bool-cases (not (task_matches b task_id))) [
  | inl other ↦ rw (other, process_row) (inl (refl, refl))
  | inr same ↦ elim (Bool-cases (is_terminal_batch b.status)) [
    | inl over ↦ rw (same, over, process_row) (inl (refl, refl))
    | inr open_batch ↦ rw (same, open_batch, process_row) (inr (run_open-IsMarked w b))
  ]
]
