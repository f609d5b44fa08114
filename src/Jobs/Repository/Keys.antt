-- ===== src/Jobs/Repository/Keys.antt =====
-- The primary key and the unique key of the table of jobs: what finds a row, and what a row that is
-- found has.
use proyecto.Common.{
  ℕ, String, ◌≡◌, ◌≢◌, refl, ap, Bool, true, false, ◌||◌, Option, none, some, List, [], ◌∷◌, ◌++◌,
  map, arith, ◌==◌, ==_iff, ==-refl, find, any, inl, inr, Bool-cases,
}
use mathlib.Core.Path.{subst}
use proyecto.Jobs.Model.{Uuid, JobType, Job}
use proyecto.Jobs.Repository.{Db, has_id, has_key, get_by_id, put_job, get_by_idempotency_key}

module _ {A : Type 0} (p : A → Bool) where
  pub holds_of-find : (xs : List A) (x : A) → find p xs ≡ some x → p x ≡ true
  holds_of-find [] x h = cc
  holds_of-find (y ∷ xs) x h = ground (arith, holds_of-find xs x)

  pub find-append_none : (xs ys : List A) → any p xs ≡ false → find p (xs ++ ys) ≡ find p ys
  find-append_none [] ys h = refl
  find-append_none (x ∷ xs) ys h = ground (arith, find-append_none xs ys)

  pub any_of-find-none : (xs : List A) → find p xs ≡ none → any p xs ≡ false
  any_of-find-none [] h = refl
  any_of-find-none (x ∷ xs) h = ground (arith, any_of-find-none xs)

-- The primary key: no two rows have one id.
abbrev pub HasUniqueIds : Db → Type 0
HasUniqueIds [] = Unit
HasUniqueIds (j ∷ db) = (any (has_id j.id) db ≡ false) × HasUniqueIds db

find-has_id_of-any :
    (p : Job → Bool) (id : Uuid) (db : Db) (job : Job)
    → find p db ≡ some job
    → any (has_id id) db ≡ false
    → job.id ≢ id
find-has_id_of-any p id [] job h k = cc
find-has_id_of-any p id (j ∷ db) job h k = ground (arith, find-has_id_of-any p id db job)

-- With unique ids, whatever test finds a row, its id finds it too.
pub get_by_id_of-find :
    (p : Job → Bool) (db : Db) (job : Job)
    → HasUniqueIds db
    → find p db ≡ some job
    → get_by_id job.id db ≡ some job
unfolding get_by_id
get_by_id_of-find p [] job u h = cc
get_by_id_of-find p (j ∷ db) job u h =
    ground (arith, get_by_id_of-find p db job u.1, find-has_id_of-any p j.id db job)

-- What identifies a row: its primary key and its unique key.
pub record Identity : Type 0 where
  pub id : Uuid
  pub created_by : Uuid
  pub job_type : JobType
  pub idempotency_key : Option String

abbrev pub identity : Job → Identity
identity j = record {
  id = j.id;
  created_by = j.created_by;
  job_type = j.job_type;
  idempotency_key = j.idempotency_key;
}

-- A look-up by the unique key sees only what identifies a row.
pub get_by_idempotency_key_of-identity :
    (user_id : Uuid) (job_type : JobType) (key : String) (db db' : Db) (job : Job)
    → map identity db ≡ map identity db'
    → get_by_idempotency_key user_id job_type key db ≡ some job
    → (job' : Job) × (get_by_idempotency_key user_id job_type key db' ≡ some job')
      × (job'.id ≡ job.id)
unfolding get_by_idempotency_key
get_by_idempotency_key_of-identity user_id job_type key [] db' job e h = absurd (cc)
get_by_idempotency_key_of-identity user_id job_type key (j ∷ db) [] job e h = absurd (cc)
get_by_idempotency_key_of-identity user_id job_type key (j ∷ db) (j' ∷ db') job e h =
    elim (Bool-cases (has_key user_id job_type key j)) [
      | inl found ↦ (j', ground arith, ground arith)
      | inr skipped ↦
          let (job', p, q) =
            get_by_idempotency_key_of-identity user_id job_type key db db' job (ground arith)
              (ground arith) in
          (job', ground arith, q)
    ]

any-has_id_of-identity :
    (id : Uuid) (db db' : Db)
    → map identity db ≡ map identity db'
    → any (has_id id) db' ≡ any (has_id id) db
any-has_id_of-identity id [] [] e = refl
any-has_id_of-identity id [] (j' ∷ db') e = absurd (cc)
any-has_id_of-identity id (j ∷ db) [] e = absurd (cc)
any-has_id_of-identity id (j ∷ db) (j' ∷ db') e =
    let same : identity j ≡ identity j' = ground arith in
    ground (arith, any-has_id_of-identity id db db', ap (λ (k : Identity). k.id) same)

pub HasUniqueIds-of-identity :
    (db db' : Db) → map identity db ≡ map identity db' → HasUniqueIds db → HasUniqueIds db'
HasUniqueIds-of-identity [] [] e u = tt
HasUniqueIds-of-identity [] (j' ∷ db') e u = absurd (cc)
HasUniqueIds-of-identity (j ∷ db) [] e u = absurd (cc)
HasUniqueIds-of-identity (j ∷ db) (j' ∷ db') e u =
    let rest : map identity db ≡ map identity db' = ground arith in
    let same : identity j ≡ identity j' = ground arith in
    (
      cc (any-has_id_of-identity j'.id db db' rest, ap (λ (k : Identity). k.id) same, u.0),
      HasUniqueIds-of-identity db db' rest u.1,
    )

any-append : (p : Job → Bool) (xs ys : Db) → any p (xs ++ ys) ≡ (any p xs || any p ys)
any-append p [] ys = refl
any-append p (x ∷ xs) ys = ground (arith, any-append p xs ys)

pub any-prefix : (p : Job → Bool) (xs ys : Db) → any p (xs ++ ys) ≡ false → any p xs ≡ false
any-prefix p xs ys h = ground (arith, any-append p xs ys)

==-comm : (a b : ℕ) → (a == b) ≡ (b == a)
==-comm a b = ground arith

-- A row that is added with a fresh id keeps the ids unique.
pub HasUniqueIds-append :
    (db : Db) (job : Job)
    → HasUniqueIds db
    → any (has_id job.id) db ≡ false
    → HasUniqueIds (db ++ job ∷ [])
HasUniqueIds-append [] job u h = (refl, tt)
HasUniqueIds-append (j ∷ db) job u h = (
  rw (any-append (has_id j.id) db (job ∷ [])) (ground (arith, ==-comm job.id j.id)),
  HasUniqueIds-append db job u.1 (ground arith),
)

-- A row that is added is found by its id.
pub get_by_id-append_self :
    (db : Db) (job : Job)
    → any (has_id job.id) db ≡ false
    → get_by_id job.id (db ++ job ∷ []) ≡ some job
unfolding get_by_id
get_by_id-append_self db job h = rw (find-append_none (has_id job.id) db (job ∷ []) h) (rw ==-refl)

put_job_absent : (job : Job) (db : Db) → any (has_id job.id) db ≡ false → put_job job db ≡ db
unfolding put_job
put_job_absent job [] h = refl
put_job_absent job (j ∷ db) h = ground (arith, put_job_absent job db)

-- An UPDATE writes no primary key and no unique key.
pub identity-put_job :
    (job old : Job) (db : Db)
    → get_by_id job.id db ≡ some old
    → identity job ≡ identity old
    → HasUniqueIds db
    → map identity (put_job job db) ≡ map identity db
unfolding get_by_id put_job
identity-put_job job old [] h e u = cc
identity-put_job job old (j ∷ db) h e u = elim (Bool-cases (j.id == job.id)) [
  | inl found ↦
      let same : j ≡ old = ground arith in
      let ids : j.id ≡ job.id = (==_iff j.id job.id).0 found in
      rw found (
        cc (
          e,
          ap identity same,
          put_job_absent job db (subst (λ k. any (has_id k) db ≡ false) ids u.0),
        ))
  | inr skipped ↦
      rw skipped (ap (λ t. identity j ∷ t) (identity-put_job job old db (ground arith) e u.1))
]
