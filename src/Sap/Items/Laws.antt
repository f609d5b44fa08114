-- ===== src/Sap/Items/Laws.antt =====
-- The loop over the items: what is sent to SAP, and what becomes of each item.
use proyecto.Common.{
  ℕ, suc, ◌+◌, String, ◌≡◌, refl, ap, true, false, inl, inr, Option, none, some, List, [], ◌∷◌,
  ◌++◌, map, arith, length, select, All, Bool-cases, if◌then◌else◌,
}
use proyecto.Common.Counting.{Fails}
use proyecto.Jobs.Model.{JobItem, is_pending, is_running}
use proyecto.Sap.World.{World, SapError, request, connection, is_cancel_requested}
use proyecto.Sap.Items.{Loop, process_items, processed_item, loop_step, after_call}

abbrev pub pending_references : List JobItem → List String
pending_references items = map (λ i. i.reference) (select is_pending items)

-- An item that does not wait is left as it is, and one that waits keeps its reference.
abbrev pub Advances : JobItem → JobItem → Type 0
Advances i j = (j.reference ≡ i.reference) × (is_pending i ≡ false → j ≡ i)

abbrev pub AllAdvance : List JobItem → List JobItem → Type 0
AllAdvance [] [] = Unit
AllAdvance (i ∷ before) (j ∷ after) = Advances i j × AllAdvance before after
AllAdvance _ _ = ⊥

pub advance_self : (items : List JobItem) → AllAdvance items items
advance_self [] = tt
advance_self (i ∷ items) = ((refl, λ _. refl), advance_self items)

reference-processed_item :
    (w : World) (i : JobItem) (a : Option SapError)
    → (processed_item w.now i a).0.reference ≡ i.reference
unfolding processed_item
reference-processed_item w i a = ground arith

module _ (i : JobItem) (items : List JobItem) (rest : Loop) where
  after_call-calls :
      (p : JobItem × Option SapError) (left : List String)
      → rest.calls ++ left ≡ pending_references items
      → (more : List String) × ((after_call i p items rest).calls ++ more
          ≡ i.reference ∷ pending_references items)
  after_call-calls (done, none) left h = (left, ap (λ t. i.reference ∷ t) h)
  after_call-calls (done, some e) left h = (pending_references items, refl)

  after_call-advances :
      (p : JobItem × Option SapError)
      → p.0.reference ≡ i.reference
      → is_pending i ≡ true
      → AllAdvance items rest.items
      → AllAdvance (i ∷ items) (after_call i p items rest).items
  after_call-advances (done, none) r waiting h = ((r, λ other. cc), h)
  after_call-advances (done, some e) r waiting h = ((r, λ other. cc), advance_self items)

  module _ (w : World) (k : ℕ) where
    step-calls :
        (left : List String)
        → rest.calls ++ left ≡ pending_references items
        → (more : List String) × ((loop_step w k i items rest).calls ++ more
            ≡ pending_references (i ∷ items))
    step-calls left h = elim (Bool-cases (is_pending i)) [
      | inr other ↦ (left, rw other h)
      | inl waiting ↦ elim (Bool-cases (is_cancel_requested (w.observed k))) [
        | inl cancelled ↦ (i.reference ∷ pending_references items, rw (waiting, cancelled))
        | inr live ↦
            let (more, e) = after_call-calls (processed_item w.now i (w.answer k)) left h in
            (more, rw (waiting, live) e)
      ]
    ]

    step-advances :
        AllAdvance items rest.items → AllAdvance (i ∷ items) (loop_step w k i items rest).items
    step-advances h = elim (Bool-cases (is_pending i)) [
      | inr other ↦ rw other ((refl, λ _. refl), h)
      | inl waiting ↦ elim (Bool-cases (is_cancel_requested (w.observed k))) [
        | inl cancelled ↦ rw (waiting, cancelled) (advance_self (i ∷ items))
        | inr live ↦
            rw (waiting, live)
              (after_call-advances (processed_item w.now i (w.answer k))
                (reference-processed_item w i (w.answer k)) waiting h)
      ]
    ]

module _ (w : World) where
  -- What is sent to SAP are items that waited, in order, each once: the calls are a prefix of the
  -- references that were pending.
  pub process_items-calls :
      (k : ℕ) (items : List JobItem)
      → (more : List String) × ((process_items w k items).calls ++ more ≡ pending_references items)
  unfolding process_items
  process_items-calls k [] = ([], refl)
  process_items-calls k (i ∷ items) =
      let next = if is_pending i then k + 1 else k in
      let (left, h) = process_items-calls (if is_pending i then k + 1 else k) items in
      step-calls i items (process_items w next items) w k left h

  -- The loop leaves an item that does not wait as it is.
  pub process_items-advances :
      (k : ℕ) (items : List JobItem) → AllAdvance items (process_items w k items).items
  unfolding process_items
  process_items-advances k [] = tt
  process_items-advances k (i ∷ items) =
      step-advances i items (process_items w (if is_pending i then k + 1 else k) items) w k
        (process_items-advances (if is_pending i then k + 1 else k) items)

-- What a loop that raised nothing leaves: no item under way, and none waiting unless it stopped at a
-- cancellation.
abbrev pub Left : Loop → Type 0
Left loop =
    loop.raised ≡ none
    → All (Fails is_running) loop.items × (loop.stopped ≡ false → All (Fails is_pending) loop.items)

-- An item whose call raised nothing has its result.
processed_item-result :
    (w : World) (i : JobItem) (a : Option SapError)
    → (processed_item w.now i a).1 ≡ none
    → (is_running (processed_item w.now i a).0 ≡ false)
      × (is_pending (processed_item w.now i a).0 ≡ false)
unfolding processed_item
processed_item-result w i none h = (refl, refl)
processed_item-result w i (some (request code text)) h = (refl, refl)
processed_item-result w i (some connection) h = absurd (cc)
processed_item-result w i (some e) h = absurd (cc)

after_call-Left :
    (i : JobItem) (items : List JobItem) (rest : Loop) (p : JobItem × Option SapError)
    → (p.1 ≡ none → (is_running p.0 ≡ false) × (is_pending p.0 ≡ false))
    → Left rest
    → Left (after_call i p items rest)
after_call-Left i items rest (done, none) result h raised =
    let (idles, ended) = h raised in
    (((result refl).0, idles), λ going. ((result refl).1, ended going))
after_call-Left i items rest (done, some e) result h raised = absurd (cc)

step-Left :
    (w : World) (k : ℕ) (i : JobItem) (items : List JobItem) (rest : Loop)
    → is_running i ≡ false
    → All (Fails is_running) items
    → Left rest
    → Left (loop_step w k i items rest)
step-Left w k i items rest idle idles h = elim (Bool-cases (is_pending i)) [
  | inr other ↦ rw other λ raised. ((idle, (h raised).0), λ going. (other, (h raised).1 going))
  | inl waiting ↦ elim (Bool-cases (is_cancel_requested (w.observed k))) [
    | inl cancelled ↦ rw (waiting, cancelled) λ raised. ((idle, idles), λ going. absurd (cc))
    | inr live ↦
        rw (waiting, live)
          (after_call-Left i items rest (processed_item w.now i (w.answer k))
            (processed_item-result w i (w.answer k)) h)
  ]
]

-- After a loop that raised nothing no item is under way, and none waits unless it stopped.
pub process_items-Left :
    (w : World) (k : ℕ) (items : List JobItem)
    → All (Fails is_running) items
    → Left (process_items w k items)
unfolding process_items
process_items-Left w k [] idle = λ raised. (tt, λ going. tt)
process_items-Left w k (i ∷ items) idle =
    step-Left w k i items (process_items w (if is_pending i then k + 1 else k) items) idle.0 idle.1
      (process_items-Left w (if is_pending i then k + 1 else k) items idle.1)

pub length-advance :
    (before after : List JobItem) → AllAdvance before after → length after ≡ length before
length-advance [] [] h = refl
length-advance [] (j ∷ after) h = absurd h
length-advance (i ∷ before) [] h = absurd h
length-advance (i ∷ before) (j ∷ after) h = ap suc (length-advance before after h.1)
