-- ===== src/Jobs/Service.antt =====
-- The operations that the methods of `JobService` share (app/api/jobs/service.py). A read returns
-- the committed row: what a session keeps in memory of a row that another session has changed is
-- modelled only where a worker depends on it (Sap).
pub mod Laws
use proyecto.Common.{Bool, true, false, ◌||◌, Option, none, some, ◌==◌, String, if◌then◌else◌}
use proyecto.Core.Errors.{Result, ok, err, Error, not_found, attribute_error, Exec, get_or_404}
use proyecto.Jobs.Model.{Uuid, Time, JobStatus, Job}
use proyecto.Jobs.Repository.{Db, get_by_id, put_job}

-- `JobDispatcher`: publishes the batches of a job in a session of its own, and may raise.
abbrev pub Dispatcher : Type 0
Dispatcher = Uuid → Exec Db (Unit {0})

abbrev pub can_access : Job → Uuid → Bool → Bool
can_access job user_id can_view_all = can_view_all || job.created_by == user_id

-- `_ensure_access`, on the row that was found
unfoldable pub ensure_access : Job → Uuid → Bool → Result Job
ensure_access job user_id can_view_all =
    if can_access job user_id can_view_all then ok job else err (not_found "Tarea no encontrada")

abbrev checked : Uuid → Bool → Result Job → Result Job
checked user_id can_view_all (err e) = err e
checked user_id can_view_all (ok job) = ensure_access job user_id can_view_all

unfoldable pub get_job : Uuid → Uuid → Bool → Exec Db Job
unfolding ensure_access get_or_404 get_by_id
get_job job_id user_id can_view_all db =
    (checked user_id can_view_all (get_or_404 (get_by_id job_id db) "Tarea no encontrada"), db)

abbrev pub dispatch_failure : Job → Job
dispatch_failure current = record current {
  status = JobStatus.dispatch_failed;
  error_summary = some "No se pudo publicar la tarea en la cola";
}

-- the handler of `_dispatch`: `current` may be `None`, and then the assignment raises
unfoldable pub record_dispatch_failure : Uuid → Exec Db (Unit {0})
unfolding get_by_id put_job
record_dispatch_failure job_id db = elim (get_by_id job_id db) [
  | none ↦ (err (attribute_error "status"), db)
  | some current ↦ (ok tt, put_job (dispatch_failure current) db)
]

abbrev pub handled : Uuid → Result (Unit {0}) → Exec Db (Unit {0})
handled job_id (ok done) db = (ok tt, db)
handled job_id (err e) db = record_dispatch_failure job_id db

-- `_dispatch`
unfoldable pub dispatch : Option Dispatcher → Uuid → Exec Db (Unit {0})
unfolding record_dispatch_failure
dispatch none job_id db = (ok tt, db)
dispatch (some dispatcher) job_id db = let (r, db') = dispatcher job_id db in handled job_id r db'
