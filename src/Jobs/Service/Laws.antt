-- ===== src/Jobs/Service/Laws.antt =====
-- What reading a job gives its caller, and what publishing a job leaves alone.
use proyecto.Common.{
  ◌≡◌, refl, sym, Bool, true, false, some, map, arith, ◌∙◌, Option-cases, inl, inr,
}
use proyecto.Core.Errors.{Result, ok, err}
use proyecto.Jobs.Model.{Uuid, Job}
use proyecto.Jobs.Repository.{Db, get_by_id, get_by_id_self}
use proyecto.Jobs.Repository.Keys.{
  identity, HasUniqueIds, identity-put_job, HasUniqueIds-of-identity,
}
use proyecto.Jobs.Service.{
  Dispatcher, get_job, can_access, dispatch, handled, dispatch_failure, record_dispatch_failure,
}

-- The owner of a row reads it.
pub get_job_owned :
    (job_id user_id : Uuid) (db : Db) (job : Job)
    → get_by_id job_id db ≡ some job
    → job.created_by ≡ user_id
    → get_job job_id user_id false db ≡ (ok job, db)
unfolding get_job
get_job_owned job_id user_id db job h c = ground (arith, h, c)

-- A publisher that changes no key: it only writes what its own rows record.
pub record KeepsIdentity (dispatcher : Dispatcher) : Type 0 where
  pub keeps :
      (id : Uuid) (db : Db) → HasUniqueIds db → map identity (dispatcher id db).1 ≡ map identity db

identity-record_dispatch_failure :
    (id : Uuid) (db : Db)
    → HasUniqueIds db
    → map identity (record_dispatch_failure id db).1 ≡ map identity db
unfolding record_dispatch_failure
identity-record_dispatch_failure id db u = elim (Option-cases (get_by_id id db)) [
  | inl missing ↦ rw (missing, record_dispatch_failure)
  | inr (current, found) ↦
      rw (found, record_dispatch_failure)
        (identity-put_job (dispatch_failure current) current db (get_by_id_self id db current found)
          refl u)
]

pub identity-dispatch :
    (dispatcher : Dispatcher) (id : Uuid) (db : Db)
    → KeepsIdentity dispatcher
    → HasUniqueIds db
    → map identity (dispatch (some dispatcher) id db).1 ≡ map identity db
unfolding dispatch
identity-dispatch dispatcher id db k u =
    let (r, db') = dispatcher id db in
    identity-handled r db' (HasUniqueIds-of-identity db db' (sym (k.keeps id db u)) u)
      (k.keeps id db u)
  where
    identity-handled :
        (r : Result (Unit {0})) (db' : Db)
        → HasUniqueIds db'
        → map identity db' ≡ map identity db
        → map identity (handled id r db').1 ≡ map identity db
    identity-handled (ok done) db' v e = e
    identity-handled (err x) db' v e = identity-record_dispatch_failure id db' v ∙ e

-- A job that is read is the row under that id, and reading writes nothing.
pub get_job_ok :
    (job_id user_id : Uuid) (can_view_all : Bool) (db db' : Db) (job : Job)
    → get_job job_id user_id can_view_all db ≡ (ok job, db')
    → (get_by_id job_id db ≡ some job) × (db ≡ db')
unfolding get_job
get_job_ok job_id user_id can_view_all db db' job h = (ground (arith, h), ground (arith, h))

-- A caller with access reads the row.
pub get_job_allowed :
    (job_id user_id : Uuid) (can_view_all : Bool) (db : Db) (job : Job)
    → get_by_id job_id db ≡ some job
    → can_access job user_id can_view_all ≡ true
    → get_job job_id user_id can_view_all db ≡ (ok job, db)
unfolding get_job
get_job_allowed job_id user_id can_view_all db job h a = ground (arith, h, a)
