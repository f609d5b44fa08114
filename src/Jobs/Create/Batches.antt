-- ===== src/Jobs/Create/Batches.antt =====
-- The rows that a new job is inserted with.
use proyecto.Common.{
  ℕ, zero, suc, ◌+◌, ◌≤◌, ◌<◌, String, ◌≡◌, refl, sym, ◌∙◌, ap, true, List, [], ◌∷◌, map, arith,
  length, All, length-map,
}
use proyecto.Common.Value.{Value}
use proyecto.Jobs.Model.{Uuid, JobBatchStatus, JobItem, JobBatch, Job, job_items, is_pending}
use proyecto.Jobs.Batching.{from_keys, chunked, new_item, build_batches, contains}
use proyecto.Jobs.Batching.Laws.{
  IsChunk, IsDistinct, references_of, references-build_batches, concat-chunked, chunked-IsChunk,
  from_keys-IsDistinct, contains-from_keys,
}
use proyecto.Jobs.Invariant.{IsSound, IsConsistent, Fits}
use proyecto.Jobs.Create.{JobRequest, Surroundings, new_job}

abbrev IsPending : JobItem → Type 0
IsPending i = is_pending i ≡ true

abbrev pub sequences : List JobBatch → List ℕ
sequences batches = map (λ b. b.sequence) batches

abbrev pub count_up : ℕ → ℕ → List ℕ
count_up n zero = []
count_up n (suc k) = n ∷ count_up (n + 1) k

-- A batch as it is inserted.
abbrev pub IsFresh : ℕ → JobBatch → Type 0
IsFresh size b =
    (b.status ≡ JobBatchStatus.pending)
    × (0 < length b.items)
    × (length b.items ≤ size)
    × (b.total_items ≡ length b.items)

new_items-fit :
    (item_payloads : List (String × Value)) (chunk : List String)
    → All (Fits JobBatchStatus.pending) (map (new_item item_payloads) chunk)
unfolding new_item
new_items-fit item_payloads [] = tt
new_items-fit item_payloads (x ∷ chunk) = ((λ _. refl, λ h. cc), new_items-fit item_payloads chunk)

module _ (batch_id : ℕ → Uuid) (item_payloads : List (String × Value)) where
  build_batches-IsFresh :
      (n size : ℕ) (chunks : List (List String))
      → All (IsChunk size) chunks
      → All (IsFresh size) (build_batches batch_id item_payloads n chunks)
  unfolding build_batches
  build_batches-IsFresh n size [] h = tt
  build_batches-IsFresh n size (chunk ∷ chunks) h =
      let total = length-map (new_item item_payloads) chunk in
      (
        (refl, omega (arith, total, h.0), omega (arith, total, h.0), sym total),
        build_batches-IsFresh (n + 1) size chunks h.1,
      )

  build_batches-IsSound :
      (n : ℕ) (chunks : List (List String))
      → All IsSound (build_batches batch_id item_payloads n chunks)
  unfolding build_batches
  build_batches-IsSound n [] = tt
  build_batches-IsSound n (chunk ∷ chunks) = (
    record {
      counted = sym (length-map (new_item item_payloads) chunk);
      fits = new_items-fit item_payloads chunk;
    },
    build_batches-IsSound (n + 1) chunks,
  )

  sequences-build_batches :
      (n : ℕ) (chunks : List (List String))
      → let batches = build_batches batch_id item_payloads n chunks in
        sequences batches ≡ count_up n (length batches)
  unfolding build_batches
  sequences-build_batches n [] = refl
  sequences-build_batches n (chunk ∷ chunks) =
      ap (λ t. n ∷ t) (sequences-build_batches (n + 1) chunks)

module _ (s : Surroundings) (request : JobRequest) (sized : 0 < request.batch_size) where
  abbrev pub inserted : Job
  inserted = new_job s request (from_keys request.references)

  references-new_job : references_of (job_items inserted) ≡ from_keys request.references
  unfolding new_job
  references-new_job =
      references-build_batches s.batch_id request.item_payloads 1
        (chunked (from_keys request.references) request.batch_size)
      ∙ concat-chunked (from_keys request.references) request.batch_size sized

  -- The items of a new job are the requested references, each once, in the order in which they
  -- first stand; its batches are numbered from 1 to their total, wait to be published, count their
  -- items, and none is empty or larger than the size asked for, which is positive.
  pub new_job_batches :
      (references_of (job_items inserted) ≡ from_keys request.references)
      × IsDistinct (references_of (job_items inserted))
      × ((ref : String)
          → contains (references_of (job_items inserted)) ref ≡ contains request.references ref)
      × (sequences inserted.batches ≡ count_up 1 inserted.total_batches)
      × All (IsFresh request.batch_size) inserted.batches
  unfolding new_job
  new_job_batches = (
    references-new_job,
    rw references-new_job (from_keys-IsDistinct request.references),
    λ ref. rw references-new_job (contains-from_keys request.references ref),
    sequences-build_batches s.batch_id request.item_payloads 1
        (chunked (from_keys request.references) request.batch_size),
    build_batches-IsFresh s.batch_id request.item_payloads 1 request.batch_size
        (chunked (from_keys request.references) request.batch_size)
        (chunked-IsChunk (from_keys request.references) request.batch_size sized),
  )

  -- The rows of a new job are consistent: its totals count its batches and its items, and every batch
  -- counts its own items, which all wait. The size of the batches is positive.
  pub new_job-IsConsistent : IsConsistent inserted
  unfolding new_job
  new_job-IsConsistent = record {
    batch_total = refl;
    item_total = omega (
      arith,
      ap length references-new_job,
      length-map (λ (i : JobItem). i.reference) (job_items inserted),
    );
    sound =
        build_batches-IsSound s.batch_id request.item_payloads 1
          (chunked (from_keys request.references) request.batch_size);
  }
