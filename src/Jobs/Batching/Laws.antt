-- ===== src/Jobs/Batching/Laws.antt =====
-- The batches of a new job: each distinct reference stands in exactly one item, in order, and no
-- batch is empty or larger than the size asked for.
use proyecto.Common.{
  ℕ, zero, suc, ◌+◌, ◌≤◌, ◌<◌, String, ◌≡◌, refl, sym, ap, false, inl, inr, List, [], ◌∷◌, map,
  arith, eq_iff, ltb, length, drop, All, gather, ltb→lt, Bool-cases, if◌then◌else◌, concat,
  drop_all, drop-add, take-append-drop, length-take_le, length-take-drop_pos,
}
use mathlib.Core.List.{map-append}
use text.Mathlib.TextPositions.{eq_refl}
use proyecto.Common.Value.{Value}
use proyecto.Jobs.Model.{Uuid, JobItem}
use proyecto.Jobs.Batching.{
  contains, unseen, from_keys, chunks_from, chunked, new_item, build_batches,
}

concat-chunks_from :
    (rounds index : ℕ) (items : List String) (size : ℕ)
    → 0 < size
    → length items ≤ rounds + index
    → concat (chunks_from rounds index items size) ≡ drop index items
unfolding chunks_from
concat-chunks_from zero index items size h k = sym (drop_all index items (omega arith))
concat-chunks_from (suc rounds) index items size h k =
    let ih = concat-chunks_from rounds (index + size) items size h (omega arith) in
    elim (Bool-cases (ltb index (length items))) [
      | inl more ↦ rw (more, ih, drop-add) (take-append-drop size (drop index items))
      | inr done ↦ rw done (sym (drop_all index items (ground arith)))
    ]

-- With a positive size the chunks, one after the other, are the items.
pub concat-chunked :
    (items : List String) (size : ℕ) → 0 < size → concat (chunked items size) ≡ items
unfolding chunked
concat-chunked items size h = concat-chunks_from (length items) 0 items size h (omega arith)

abbrev pub IsChunk : ℕ → List String → Type 0
IsChunk size chunk = (0 < length chunk) × (length chunk ≤ size)

chunks_from-IsChunk :
    (rounds index : ℕ) (items : List String) (size : ℕ)
    → 0 < size
    → All (IsChunk size) (chunks_from rounds index items size)
unfolding chunks_from
chunks_from-IsChunk zero index items size h = tt
chunks_from-IsChunk (suc rounds) index items size h = elim (Bool-cases (ltb index (length items))) [
  | inl more ↦ rw more (
    (
      length-take-drop_pos size index items h (ltb→lt index (length items) more),
      length-take_le size (drop index items),
    ),
    chunks_from-IsChunk rounds (index + size) items size h,
  )
  | inr done ↦ rw done tt
]

pub chunked-IsChunk :
    (items : List String) (size : ℕ) → 0 < size → All (IsChunk size) (chunked items size)
unfolding chunked
chunked-IsChunk items size h = chunks_from-IsChunk (length items) 0 items size h

abbrev pub references_of : List JobItem → List String
references_of items = map (λ i. i.reference) items

references_of-new_items :
    (item_payloads : List (String × Value)) (chunk : List String)
    → references_of (map (new_item item_payloads) chunk) ≡ chunk
unfolding new_item
references_of-new_items item_payloads [] = refl
references_of-new_items item_payloads (x ∷ chunk) =
    ap (λ t. x ∷ t) (references_of-new_items item_payloads chunk)

pub references-build_batches :
    (batch_id : ℕ → Uuid) (item_payloads : List (String × Value)) (n : ℕ)
    (chunks : List (List String))
    → references_of (gather (λ b. b.items) (build_batches batch_id item_payloads n chunks))
      ≡ concat chunks
unfolding build_batches
references-build_batches batch_id item_payloads n [] = refl
references-build_batches batch_id item_payloads n (chunk ∷ chunks) = rw (
  map-append,
  references_of-new_items item_payloads chunk,
  references-build_batches batch_id item_payloads (n + 1) chunks,
)

-- Each element stands nowhere behind itself.
abbrev pub IsDistinct : List String → Type 0
IsDistinct [] = Unit
IsDistinct (x ∷ xs) = (contains xs x ≡ false) × IsDistinct xs

contains-unseen :
    (seen references : List String) (ref : String)
    → contains (unseen seen references) ref
      ≡ (if contains seen ref then false else contains references ref)
unfolding unseen
contains-unseen seen [] ref = ground arith
contains-unseen seen (x ∷ references) ref = ground (
  arith,
  eq_iff x ref,
  contains-unseen seen references ref,
  contains-unseen (x ∷ seen) references ref,
)

unseen-IsDistinct : (seen references : List String) → IsDistinct (unseen seen references)
unfolding unseen
unseen-IsDistinct seen [] = tt
unseen-IsDistinct seen (x ∷ references) = elim (Bool-cases (contains seen x)) [
  | inl old ↦ rw (old, unseen) (unseen-IsDistinct seen references)
  | inr new ↦
      rw (new, unseen)
        (
          ground (arith, eq_refl x, contains-unseen (x ∷ seen) references x),
          unseen-IsDistinct (x ∷ seen) references,
        )
]

pub from_keys-IsDistinct : (references : List String) → IsDistinct (from_keys references)
unfolding from_keys
from_keys-IsDistinct references = unseen-IsDistinct [] references

pub contains-from_keys :
    (references : List String) (ref : String)
    → contains (from_keys references) ref ≡ contains references ref
unfolding from_keys
contains-from_keys references ref = contains-unseen [] references ref
