-- ===== src/Jobs/Repository.antt =====
-- app/api/jobs/repository.py over the table of jobs, newest last. A row is found by its primary
-- key, and an UPDATE replaces it.
pub mod Keys
use proyecto.Common.{
  String, ◌≡◌, Bool, true, false, ◌&&◌, Option, none, some, List, [], ◌∷◌, map, arith, ◌==◌, str_eq,
  if◌then◌else◌, find, select,
}
use mathlib.Core.Path.{subst, sym}
use proyecto.Common.Value.{Value}
use proyecto.Jobs.Model.{
  Uuid, JobType, job_type_value, JobBatchStatus, Job, JobBatch, JobItem, is_failed, job_items,
}

abbrev pub Db : Type 0
Db = List Job

abbrev pub has_id : Uuid → Job → Bool
has_id id job = job.id == id

unfoldable pub get_by_id : Uuid → Db → Option Job
get_by_id job_id db = find (has_id job_id) db

-- UPDATE of the row with the primary key of `job`
unfoldable pub put_job : Job → Db → Db
put_job job [] = []
put_job job (j ∷ db) = (if j.id == job.id then job else j) ∷ put_job job db

abbrev pub key_eq : Option String → String → Bool
key_eq none key = false
key_eq (some k) key = str_eq k key

-- The filter of `get_by_idempotency_key`, and of the unique constraint on these three columns.
abbrev pub has_key : Uuid → JobType → String → Job → Bool
has_key user_id job_type key job =
    job.created_by == user_id
    && str_eq (job_type_value job.job_type) (job_type_value job_type)
    && key_eq job.idempotency_key key

unfoldable pub get_by_idempotency_key : Uuid → JobType → String → Db → Option Job
get_by_idempotency_key user_id job_type key db = find (has_key user_id job_type key) db

-- Items of a job are inserted in the order of its batches, and `created_at` follows it.
unfoldable pub get_failed_references : Job → List String
get_failed_references job = map (λ i. i.reference) (select is_failed (job_items job))

abbrev payload_rows : List JobItem → List (String × Value)
payload_rows [] = []
payload_rows (i ∷ items) =
    let rest = payload_rows items in
    elim i.result_data [ none ↦ rest | some payload ↦ (i.reference, payload) ∷ rest ]

unfoldable pub get_failed_item_payloads : Job → List (String × Value)
get_failed_item_payloads job = payload_rows (select is_failed (job_items job))

abbrev pub is_dispatchable : JobBatch → Bool
is_dispatchable b = elim b.status [
  | JobBatchStatus.pending ↦ true
  | JobBatchStatus.retrying ↦ true
  | _ ↦ false
]

-- Batches are kept in the order of `sequence`.
unfoldable pub get_dispatchable_batches : Job → List JobBatch
get_dispatchable_batches job = select is_dispatchable job.batches

abbrev pub matches {ℓ} : {A : Type ℓ} → (A → Bool) → Option A → Bool
matches test none = true
matches test (some a) = test a

-- What an UPDATE of one row does to a read.
abbrev pub replaced : Job → Option Job → Option Job
replaced job none = none
replaced job (some old) = some job

pub get_by_id-put_job :
    (id : Uuid) (job : Job) (db : Db)
    → get_by_id id (put_job job db)
      ≡ (if job.id == id then replaced job (get_by_id id db) else get_by_id id db)
unfolding get_by_id put_job
get_by_id-put_job id job [] = ground arith
get_by_id-put_job id job (j ∷ db) = ground (arith, get_by_id-put_job id job db)

-- A row that is found has the key that was asked for.
pub id_of-get_by_id : (id : Uuid) (db : Db) (job : Job) → get_by_id id db ≡ some job → job.id ≡ id
unfolding get_by_id
id_of-get_by_id id [] job h = cc
id_of-get_by_id id (j ∷ db) job h = ground (arith, id_of-get_by_id id db job)

-- After an UPDATE of a row that is there, reading its key gives the new row.
pub get_by_id-put_job_self :
    (db : Db) (job old : Job)
    → get_by_id job.id db ≡ some old
    → get_by_id job.id (put_job job db) ≡ some job
get_by_id-put_job_self db job old h = ground (arith, get_by_id-put_job job.id job db)

-- What a key finds is found by its own key.
pub get_by_id_self :
    (id : Uuid) (db : Db) (job : Job) → get_by_id id db ≡ some job → get_by_id job.id db ≡ some job
get_by_id_self id db job h =
    subst (λ k. get_by_id k db ≡ some job) (sym (id_of-get_by_id id db job h)) h

-- After an UPDATE of the row under a key, the key gives the new row.
pub get_by_id-put_job_at :
    (id : Uuid) (db : Db) (job old : Job)
    → get_by_id id db ≡ some old
    → job.id ≡ id
    → get_by_id id (put_job job db) ≡ some job
get_by_id-put_job_at id db job old h e = ground (arith, get_by_id-put_job id job db)
