-- ===== src/Sap/Task/Kept.antt =====
-- The writes of a batch that keep the items with a result.
use proyecto.Common.{
  String, ◌≡◌, refl, sym, ◌∙◌, true, false, List, [], ◌∷◌, map, arith, Bool-cases, inl, inr,
}
use mathlib.Core.Path.{subst}
use proyecto.Jobs.Model.{Time, JobItem, JobBatch, is_pending, is_running}
use proyecto.Jobs.Invariant.{is_processed}
use proyecto.Sap.Rows.{
  uncertain_item, fail_item, reset_item, mark_retrying, keeps_result, mark_failed,
}
use proyecto.Sap.Items.Laws.{pending_references, AllAdvance}

-- An item with a result keeps it.
abbrev pub AllKept : List JobItem → List JobItem → Type 0
AllKept [] [] = Unit
AllKept (i ∷ before) (j ∷ after) = (is_processed i ≡ true → j ≡ i) × AllKept before after
AllKept _ _ = ⊥

pub kept_map :
    (f : JobItem → JobItem) (items : List JobItem)
    → ((i : JobItem) → is_processed i ≡ true → f i ≡ i)
    → AllKept items (map f items)
kept_map f [] h = tt
kept_map f (i ∷ items) h = (h i, kept_map f items h)

pub kept_trans : (a b c : List JobItem) → AllKept a b → AllKept b c → AllKept a c
kept_trans [] [] [] h k = tt
kept_trans [] [] (z ∷ c) h k = absurd k
kept_trans [] (y ∷ b) c h k = absurd h
kept_trans (x ∷ a) [] c h k = absurd h
kept_trans (x ∷ a) (y ∷ b) [] h k = absurd k
kept_trans (x ∷ a) (y ∷ b) (z ∷ c) h k = (
  λ p. let same = h.0 p in k.0 (subst (λ i. is_processed i ≡ true) (sym same) p) ∙ same,
  kept_trans a b c h.1 k.1,
)

pub kept_advance : (a b : List JobItem) → AllAdvance a b → AllKept a b
kept_advance [] [] h = tt
kept_advance [] (y ∷ b) h = absurd h
kept_advance (x ∷ a) [] h = absurd h
kept_advance (x ∷ a) (y ∷ b) h = (λ p. h.0.1 (ground (arith, p)), kept_advance a b h.1)

pub kept_self : (items : List JobItem) → AllKept items items
kept_self [] = tt
kept_self (i ∷ items) = (λ _. refl, kept_self items)

-- Marking what is uncertain moves no item that waits.
pub pending-uncertain :
    (now : Time) (items : List JobItem)
    → pending_references (map (uncertain_item now) items) ≡ pending_references items
pending-uncertain now [] = refl
pending-uncertain now (i ∷ items) = ground (arith, pending-uncertain now items)

pub kept_uncertain :
    (now : Time) (items : List JobItem) → AllKept items (map (uncertain_item now) items)
kept_uncertain now items = kept_map (uncertain_item now) items (λ i p. ground arith)

pub kept_retrying :
    (now : Time) (text : String) (b : JobBatch) → AllKept b.items (mark_retrying now text b).items
unfolding mark_retrying
kept_retrying now text b = kept_map reset_item b.items (λ i p. ground arith)

pub kept_failed :
    (now : Time) (text : String) (b : JobBatch) → AllKept b.items (mark_failed now text b).items
unfolding mark_failed
kept_failed now text b = elim (Bool-cases (keeps_result b.status)) [
  | inl over ↦ rw over (kept_self b.items)
  | inr open_batch ↦ rw open_batch (kept_map (fail_item now text) b.items (λ i p. ground arith))
]

-- An item that was under way has a result.
abbrev pub AllMarked : List JobItem → List JobItem → Type 0
AllMarked [] [] = Unit
AllMarked (i ∷ before) (j ∷ after) =
    (is_running i ≡ true → is_processed j ≡ true) × AllMarked before after
AllMarked _ _ = ⊥

-- An item that was under way does not wait to be sent.
abbrev pub NoneResent : List JobItem → List JobItem → Type 0
NoneResent [] [] = Unit
NoneResent (i ∷ before) (j ∷ after) =
    (is_running i ≡ true → is_pending j ≡ false) × NoneResent before after
NoneResent _ _ = ⊥

pub marked_uncertain :
    (now : Time) (items : List JobItem) → AllMarked items (map (uncertain_item now) items)
marked_uncertain now [] = tt
marked_uncertain now (i ∷ items) = (λ p. ground (arith, p), marked_uncertain now items)

pub marked_kept : (a b c : List JobItem) → AllMarked a b → AllKept b c → AllMarked a c
marked_kept [] [] [] h k = tt
marked_kept [] [] (z ∷ c) h k = absurd k
marked_kept [] (y ∷ b) c h k = absurd h
marked_kept (x ∷ a) [] c h k = absurd h
marked_kept (x ∷ a) (y ∷ b) [] h k = absurd k
marked_kept (x ∷ a) (y ∷ b) (z ∷ c) h k =
    (λ p. subst (λ i. is_processed i ≡ true) (sym (k.0 (h.0 p))) (h.0 p), marked_kept a b c h.1 k.1)

pub resent_marked : (a b : List JobItem) → AllMarked a b → NoneResent a b
resent_marked [] [] h = tt
resent_marked [] (y ∷ b) h = absurd h
resent_marked (x ∷ a) [] h = absurd h
resent_marked (x ∷ a) (y ∷ b) h = (λ p. ground (arith, h.0 p), resent_marked a b h.1)

pub resent_self : (items : List JobItem) → NoneResent items items
resent_self [] = tt
resent_self (i ∷ items) = (λ p. ground (arith, p), resent_self items)
