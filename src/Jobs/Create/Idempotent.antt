-- ===== src/Jobs/Create/Idempotent.antt =====
-- A repeated `create_job` with the same idempotency key.
use proyecto.Common.{
  String, ◌≡◌, refl, sym, ◌∙◌, false, Option, some, List, [], ◌∷◌, ◌++◌, map, arith, leb, any, find,
  inl, inr, Bool-cases, Option-cases,
}
use mathlib.Core.Path.{subst}
use text.Mathlib.TextPositions.{eq_refl}
use proyecto.Core.Errors.{Result, ok, err, continue, ◌>>◌}
use proyecto.Jobs.Model.{Job, job_type_value}
use proyecto.Jobs.Repository.{Db, has_key, has_id, get_by_idempotency_key, id_of-get_by_id}
use proyecto.Jobs.Repository.Keys.{
  HasUniqueIds, identity, get_by_id_of-find, holds_of-find, get_by_idempotency_key_of-identity,
  HasUniqueIds-append, find-append_none, any-prefix,
}
use proyecto.Jobs.Batching.{from_keys}
use proyecto.Jobs.Service.{Dispatcher, get_job, dispatch}
use proyecto.Jobs.Service.Laws.{get_job_owned, get_job_ok, KeepsIdentity, identity-dispatch}
use proyecto.Jobs.Create.{
  JobRequest, Surroundings, truthy, new_job, violates, existing_job, after_violation,
  insert_and_dispatch, find_or_insert, is_empty, create_job,
}

id-new_job :
    (s : Surroundings) (request : JobRequest) (normalized : List String)
    → (new_job s request normalized).id ≡ s.job_id
unfolding new_job
id-new_job s request normalized = refl

module _ (request : JobRequest) (key : String)
    (keyed : truthy request.idempotency_key ≡ some key) where
  existing_job_lem :
      (db : Db)
      → existing_job request db ≡ get_by_idempotency_key request.user_id request.job_type key db
  existing_job_lem db = rw (keyed, existing_job)

  -- The row that the look-up finds belongs to the caller, and its id finds it.
  read_existing :
      (db : Db) (existing : Job)
      → HasUniqueIds db
      → existing_job request db ≡ some existing
      → get_job existing.id request.user_id false db ≡ (ok existing, db)
  unfolding get_by_idempotency_key
  read_existing db existing u h =
      let found = existing_job_lem db in
      let q : find (has_key request.user_id request.job_type key) db ≡ some existing =
        rw (← found) h in
      get_job_owned existing.id request.user_id db existing (get_by_id_of-find _ db existing u q)
        (ground (arith, holds_of-find (has_key request.user_id request.job_type key) db existing))

  create_job-existing :
      (s : Surroundings) (dispatcher : Option Dispatcher) (db : Db) (existing : Job)
      → is_empty (from_keys request.references) ≡ false
      → leb request.batch_size 0 ≡ false
      → HasUniqueIds db
      → existing_job request db ≡ some existing
      → create_job s request dispatcher db ≡ (ok existing, db)
  unfolding create_job find_or_insert
  create_job-existing s dispatcher db existing filled sized u h =
      rw (filled, sized) (rw (h, find_or_insert) (read_existing db existing u h))

  -- After the call that returned `job`, the key finds a row with the id of `job`.
  abbrev IsKept : Db → Job → Type 0
  IsKept db' job =
      (existing : Job) × (existing_job request db' ≡ some existing) × (existing.id ≡ job.id)

  IsKept-on_read :
      (db db' : Db) (existing job : Job)
      → HasUniqueIds db
      → existing_job request db ≡ some existing
      → get_job existing.id request.user_id false db ≡ (ok job, db')
      → IsKept db' job
  IsKept-on_read db db' existing job u h g =
      let read = read_existing db existing u h in (existing, cc (read, g, h), cc (read, g))

  IsKept-on_violation :
      (db db' : Db) (job : Job)
      → HasUniqueIds db
      → after_violation request db ≡ (ok job, db')
      → IsKept db' job
  unfolding after_violation
  IsKept-on_violation db db' job u h = elim (Option-cases (existing_job request db)) [
    | inl missing ↦ absurd (cc (missing, h))
    | inr (existing, found) ↦ IsKept-on_read db db' existing job u found (ground (arith, found, h))
  ]

  key_of_request : request.idempotency_key ≡ some key
  key_of_request = ground (arith, keyed)

  -- The row that is inserted is the one that the key finds.
  key_of_new_job :
      (s : Surroundings) (normalized : List String) (db : Db)
      → violates (new_job s request normalized) db ≡ false
      → existing_job request (db ++ new_job s request normalized ∷ [])
        ≡ some (new_job s request normalized)
  unfolding new_job get_by_idempotency_key
  key_of_new_job s normalized db h =
      let none_there : any (has_key request.user_id request.job_type key) db ≡ false =
        rw (key_of_request, violates) at h in
      existing_job_lem (db ++ new_job s request normalized ∷ [])
      ∙ find-append_none _ db _ none_there
      ∙ ground (arith, key_of_request, eq_refl key, eq_refl (job_type_value request.job_type))

  -- What the call leaves when no other job took the key: the row is there, dispatched or not.
  IsKept-on_insert :
      (s : Surroundings) (normalized : List String) (dispatcher : Dispatcher) (stored db' : Db)
      (job : Job)
      → KeepsIdentity dispatcher
      → HasUniqueIds stored
      → existing_job request stored ≡ some (new_job s request normalized)
      → (do dispatch (some dispatcher) s.job_id; get_job s.job_id request.user_id false) stored
        ≡ (ok job, db')
      → IsKept db' job
  IsKept-on_insert s normalized dispatcher stored db' job k u found h =
      go (dispatch (some dispatcher) s.job_id stored).0
        (dispatch (some dispatcher) s.job_id stored).1
        (identity-dispatch dispatcher s.job_id stored k u) h
    where
      go :
          (r : Result (Unit {0})) (after : Db)
          → map identity after ≡ map identity stored
          → continue r (λ _. get_job s.job_id request.user_id false) after ≡ (ok job, db')
          → IsKept db' job
      go (err e) after same g = absurd (cc)
      go (ok done) after same g =
          let (read, unchanged) = get_job_ok s.job_id request.user_id false after db' job g in
          let kept =
            get_by_idempotency_key_of-identity request.user_id request.job_type key stored after
              (new_job s request normalized) (sym same) (sym (existing_job_lem stored) ∙ found) in
          let (existing, at_key, same_id) = kept in
          (
            existing,
            subst (λ d. existing_job request d ≡ some existing) unchanged
                (existing_job_lem after ∙ at_key),
            same_id
                ∙ id-new_job s request normalized
                ∙ sym (id_of-get_by_id s.job_id after job read),
          )

  IsKept-on_commit :
      (s : Surroundings) (normalized : List String) (dispatcher : Dispatcher) (db db' : Db)
      (job : Job)
      → KeepsIdentity dispatcher
      → HasUniqueIds (db ++ s.committed_meanwhile)
      → any (has_id s.job_id) (db ++ s.committed_meanwhile) ≡ false
      → insert_and_dispatch s request (some dispatcher) normalized db ≡ (ok job, db')
      → IsKept db' job
  unfolding insert_and_dispatch new_job
  IsKept-on_commit s normalized dispatcher db db' job k u fresh h =
      let before = db ++ s.committed_meanwhile in
      let inserted = new_job s request normalized in
      let named = id-new_job s request normalized in
      elim (Bool-cases (violates inserted before)) [
        | inl taken ↦ IsKept-on_violation before db' job u (rw taken at h)
        | inr free ↦
            IsKept-on_insert s normalized dispatcher (before ++ inserted ∷ []) db' job k
              (HasUniqueIds-append before inserted u (rw named fresh))
              (key_of_new_job s normalized before free) (rw (free, named) at h)
      ]

  -- A call that returns a job passed both checks.
  checks_passed :
      (s : Surroundings) (dispatcher : Option Dispatcher) (db db' : Db) (job : Job)
      → create_job s request dispatcher db ≡ (ok job, db')
      → (is_empty (from_keys request.references) ≡ false)
        × (leb request.batch_size 0 ≡ false)
        × (find_or_insert s request dispatcher (from_keys request.references) db ≡ (ok job, db'))
  unfolding create_job
  checks_passed s dispatcher db db' job h = ground arith

  IsKept-on_create :
      (s : Surroundings) (dispatcher : Dispatcher) (db db' : Db) (job : Job)
      → KeepsIdentity dispatcher
      → HasUniqueIds (db ++ s.committed_meanwhile)
      → HasUniqueIds db
      → any (has_id s.job_id) (db ++ s.committed_meanwhile) ≡ false
      → find_or_insert s request (some dispatcher) (from_keys request.references) db ≡ (ok job, db')
      → IsKept db' job
  unfolding find_or_insert
  IsKept-on_create s dispatcher db db' job k u v fresh h =
      elim (Option-cases (existing_job request db)) [
        | inl missing ↦
            IsKept-on_commit s (from_keys request.references) dispatcher db db' job k u fresh
              (rw (missing, find_or_insert) at h)
        | inr (existing, found) ↦
            IsKept-on_read db db' existing job v found (rw (found, find_or_insert) at h)
      ]

-- unique ids of a database at the start of a longer one
HasUniqueIds-of-append : (db more : Db) → HasUniqueIds (db ++ more) → HasUniqueIds db
HasUniqueIds-of-append [] more u = tt
HasUniqueIds-of-append (j ∷ db) more u =
    (any-prefix (has_id j.id) db more u.0, HasUniqueIds-of-append db more u.1)

-- Double clicks and HTTP retries: a call that returned a job, with a key that is not empty and a
-- dispatcher that changes no key, leaves a database in which a second call of the same request, with
-- any surroundings and dispatcher, returns a job with the same id and writes nothing. Ids are unique
-- when the job is inserted and after the first call, and `uuid4()` gives a new one.
pub create_job_twice :
    (request : JobRequest) (key : String) (s s' : Surroundings) (dispatcher : Dispatcher)
    (dispatcher' : Option Dispatcher) (db db' : Db) (job : Job)
    → truthy request.idempotency_key ≡ some key
    → KeepsIdentity dispatcher
    → HasUniqueIds (db ++ s.committed_meanwhile)
    → any (has_id s.job_id) (db ++ s.committed_meanwhile) ≡ false
    → HasUniqueIds db'
    → create_job s request (some dispatcher) db ≡ (ok job, db')
    → (again : Job) × (create_job s' request dispatcher' db' ≡ (ok again, db'))
      × (again.id ≡ job.id)
create_job_twice request key s s' dispatcher dispatcher' db db' job keyed k u fresh u' h =
    let (filled, sized, run) = checks_passed request key keyed s (some dispatcher) db db' job h in
    let (existing, found, same_id) =
      IsKept-on_create request key keyed s dispatcher db db' job k u
        (HasUniqueIds-of-append db s.committed_meanwhile u) fresh run in
    (
      existing,
      create_job-existing request key keyed s' dispatcher' db' existing filled sized u' found,
      same_id,
    )
