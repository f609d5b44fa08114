-- ===== src/Jobs/Retry/Laws.antt =====
-- What a retry does: a job with batches to publish is published again as it is, and any other gets a
-- child job of its failed items.
use proyecto.Common.{
  if◌then◌else◌, ℕ, ◌<◌, String, ◌≡◌, refl, ap, Bool, true, false, Option, none, some, List, [],
  ◌∷◌, ◌++◌, arith, eq_iff, All, leb,
}
use mathlib.Core.Path.{subst}
use proyecto.Core.Errors.{Error, err, conflict, not_found, ◌>>◌}
use proyecto.Jobs.Model.{Uuid, Job, job_items}
use proyecto.Jobs.Repository.{Db, get_by_id, get_failed_references}
use proyecto.Jobs.Batching.{contains, unseen, from_keys}
use proyecto.Jobs.Batching.Laws.{IsDistinct, references_of}
use proyecto.Jobs.Service.{get_job, dispatch, Dispatcher, can_access}
use proyecto.Jobs.Service.Laws.{get_job_allowed}
use proyecto.Jobs.Create.{
  Surroundings, is_empty, create_job, new_job, find_or_insert, insert_and_dispatch,
}
use proyecto.Jobs.Create.Batches.{new_job_batches}
use proyecto.Jobs.Retry.{retry_job, is_republishable, create_child, retry_request}

none_seen_cons :
    (x : String) (seen references : List String)
    → contains references x ≡ false
    → All (λ ref. contains seen ref ≡ false) references
    → All (λ ref. contains (x ∷ seen) ref ≡ false) references
none_seen_cons x seen [] d h = tt
none_seen_cons x seen (y ∷ references) d h = (
  ground (arith, eq_iff x y, eq_iff y x, h.0),
  none_seen_cons x seen references (ground arith) h.1,
)

unseen_distinct :
    (seen references : List String)
    → All (λ ref. contains seen ref ≡ false) references
    → IsDistinct references
    → unseen seen references ≡ references
unfolding unseen
unseen_distinct seen [] h d = refl
unseen_distinct seen (x ∷ references) h d =
    rw (h.0, unseen)
      (ap (λ t. x ∷ t)
        (unseen_distinct (x ∷ seen) references (none_seen_cons x seen references d.0 h.1) d.1))

none_seen_nil : (references : List String) → All (λ ref. contains [] ref ≡ false) references
none_seen_nil [] = tt
none_seen_nil (x ∷ references) = (refl, none_seen_nil references)

-- References that are distinct already are kept as they are.
pub from_keys_distinct :
    (references : List String) → IsDistinct references → from_keys references ≡ references
unfolding from_keys
from_keys_distinct references d = unseen_distinct [] references (none_seen_nil references) d

module _ (s : Surroundings) (dispatcher : Option Dispatcher) (job_id user_id : Uuid)
    (can_retry_all : Bool) (batch_size : ℕ) (db : Db) (job : Job)
    (found : get_by_id job_id db ≡ some job)
    (allowed : can_access job user_id can_retry_all ≡ true) where
  -- A retry, by a caller with access, of a job with nothing left to publish, or that has ended,
  -- and with failed items, appends a child job to the rows, behind those that others commit
  -- meanwhile; it is then published, and the caller gets its row. The items of the child are exactly
  -- the failed references of the job, in order, and it names the job as its parent. The references
  -- of a job are distinct, and the size is positive.
  pub retry_job_child :
      is_republishable job ≡ false
      → is_empty (get_failed_references job) ≡ false
      → IsDistinct (get_failed_references job)
      → 0 < batch_size
      → let child = new_job s (retry_request job user_id batch_size) (get_failed_references job) in
        (retry_job s dispatcher job_id user_id can_retry_all batch_size db
          ≡ (do dispatch dispatcher child.id; get_job child.id user_id false)
              ((db ++ s.committed_meanwhile) ++ child ∷ []))
        × (references_of (job_items child) ≡ get_failed_references job)
        × (child.parent_job_id ≡ some job.id)
  unfolding retry_job create_child create_job find_or_insert insert_and_dispatch new_job
  retry_job_child closed failed distinct sized =
      let kept = from_keys_distinct (get_failed_references job) distinct in
      let positive : leb batch_size 0 ≡ false = ground arith in
      (
        rw (get_job_allowed job_id user_id can_retry_all db job found allowed, closed)
            (rw (kept, failed, positive)),
        subst
            (λ r.
              references_of (job_items (new_job s (retry_request job user_id batch_size) r)) ≡ r)
            kept (new_job_batches s (retry_request job user_id batch_size) sized).0,
        refl,
      )

-- Why a retry is refused: the row is missing or of another user, or has neither batches to publish nor
-- failed items.
abbrev pub retry_refusal : Uuid → Bool → Option Job → Option Error
retry_refusal user_id can_retry_all none = some (not_found "Tarea no encontrada")
retry_refusal user_id can_retry_all (some job) =
    if can_access job user_id can_retry_all
    then if is_republishable job
      then none
      else if is_empty (get_failed_references job)
      then some (conflict "La tarea no tiene elementos fallidos para reintentar")
      else none
    else some (not_found "Tarea no encontrada")

-- A retry of a job that is unknown or of another user, or that has neither batches to publish nor failed
-- items, raises the error for it, and writes nothing.
pub retry_job_refused :
    (s : Surroundings) (dispatcher : Option Dispatcher) (job_id user_id : Uuid)
    (can_retry_all : Bool) (batch_size : ℕ) (db : Db) (e : Error)
    → retry_refusal user_id can_retry_all (get_by_id job_id db) ≡ some e
    → retry_job s dispatcher job_id user_id can_retry_all batch_size db ≡ (err e, db)
unfolding retry_job create_child get_job
retry_job_refused s dispatcher job_id user_id can_retry_all batch_size db e h = ground (arith, h)
