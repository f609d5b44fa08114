-- ===== src/Jobs/Dispatcher/Rows.antt =====
-- What `dispatch_job` leaves in the table of jobs, alone and under `JobService._dispatch`.
use proyecto.Common.{
  String, ◌≡◌, refl, sym, ap, ◌∙◌, true, false, some, List, [], ◌∷◌, map, arith, All, length,
  gather, inl, inr, ◌⊎◌, Option-cases, suc,
}
use mathlib.Core.Path.{subst}
use proyecto.Common.Counting.{All-imp}
use proyecto.Core.Errors.{Error, Result, ok, err}
use proyecto.Core.Modules.{Switches, require_module, is_module_enabled}
use proyecto.Jobs.Model.{
  Uuid, JobType, sap_document_action, sap_reconciliation, payment_provider_email, ledger_sync,
  ledger_sync_delta, ledger_reprocess, analytics_extract, analytics_silver_build, other, JobStatus,
  JobBatchStatus, JobItem, JobBatch, Job,
}
use proyecto.Jobs.Repository.{
  Db, get_by_id, put_job, get_by_id_self, get_by_id-put_job_at, id_of-get_by_id, is_dispatchable,
}
use proyecto.Jobs.Repository.Keys.{identity, HasUniqueIds, identity-put_job}
use proyecto.Jobs.Invariant.{IsSound, IsConsistent, Fits}
use proyecto.Jobs.Service.{dispatch, dispatch_failure, record_dispatch_failure}
use proyecto.Jobs.Service.Laws.{KeepsIdentity}
use proyecto.Core.Modules.Laws.{module_enabled_iff}
use proyecto.Jobs.Dispatcher.{
  process_sap_batch, process_payment_provider_email_batch, process_ledger_batch,
  process_analytics_batch, process_analytics_silver_batch, Task, Queue, BrokerEnv, publish_from,
  publish_job, cancel_disabled, dispatch_row, run_dispatch, dispatch_job, job_task, job_module,
  check_handler, resolve_job_queue, guarded, required,
}
use proyecto.Jobs.Dispatcher.Laws.{Follows, AllFollow, publish-follows}

requeue-Fits :
    (b : JobBatch) (next : JobBatchStatus) (i : JobItem)
    → is_dispatchable b ≡ true
    → (next ≡ JobBatchStatus.queued) ⊎ (next ≡ JobBatchStatus.pending)
    → Fits b.status i
    → Fits next i
requeue-Fits b next i waiting e f = (λ _. ground (arith, f.0), λ done. ground (arith, f.0))

Follows-IsSound : (b a : JobBatch) → Follows b a → IsSound b → IsSound a
Follows-IsSound b a (inl same) s = subst IsSound (sym same) s
Follows-IsSound b a (inr (waiting, same, next)) s = record {
  counted = ap (λ x. x.total_items) same ∙ s.counted ∙ sym (ap (λ x. length x.items) same);
  fits = subst (All (Fits a.status)) (sym (ap (λ x. x.items) same)) (
      All-imp (Fits b.status) (Fits a.status) b.items
        (λ x f. requeue-Fits b a.status x waiting next f) s.fits);
}

follow-IsSound :
    (before after : List JobBatch) → AllFollow before after → All IsSound before → All IsSound after
follow-IsSound [] [] f s = tt
follow-IsSound [] (a ∷ after) f s = absurd f
follow-IsSound (b ∷ before) [] f s = absurd f
follow-IsSound (b ∷ before) (a ∷ after) f s =
    (Follows-IsSound b a f.0 s.0, follow-IsSound before after f.1 s.1)

Follows-items : (b a : JobBatch) → Follows b a → a.items ≡ b.items
Follows-items b a (inl same) = ap (λ x. x.items) same
Follows-items b a (inr (waiting, same, next)) = ap (λ x. x.items) same

follow-items :
    (before after : List JobBatch)
    → AllFollow before after
    → (length after ≡ length before) × (gather (λ b. b.items) after ≡ gather (λ b. b.items) before)
follow-items [] [] f = (refl, refl)
follow-items [] (a ∷ after) f = absurd f
follow-items (b ∷ before) [] f = absurd f
follow-items (b ∷ before) (a ∷ after) f =
    let (lengths, items) = follow-items before after f.1 in
    (ap suc lengths, cc (Follows-items b a f.0, items))

-- Publishing keeps the rows of a job consistent, whatever the broker accepts.
pub publish-IsConsistent :
    (env : BrokerEnv) (task : Task) (queue : Queue) (job : Job)
    → IsConsistent job
    → IsConsistent (record job { batches = (publish_from env task queue 0 job.batches).batches })
publish-IsConsistent env task queue job c =
    let after = (publish_from env task queue 0 job.batches).batches in
    let followed = publish-follows env task queue 0 job.batches in
    let (lengths, items) = follow-items job.batches after followed in
    record {
      batch_total = c.batch_total ∙ sym lengths;
      item_total = c.item_total ∙ sym (ap length items);
      sound = follow-IsSound job.batches after followed c.sound;
    }

identity-put_found :
    (id : Uuid) (db : Db) (job new : Job)
    → get_by_id id db ≡ some job
    → identity new ≡ identity job
    → HasUniqueIds db
    → map identity (put_job new db) ≡ map identity db
identity-put_found id db job new found e u =
    identity-put_job new job db
      (subst (λ k. get_by_id k db ≡ some job) (sym (ap (λ i. i.id) e))
        (get_by_id_self id db job found))
      e u

abbrev sent_job : BrokerEnv → Task → Job → Job
sent_job env task job =
    let sent =
      publish_from env task (resolve_job_queue job.job_type job.total_items) 0 job.batches in
    record job { batches = sent.batches }

module _ (env : BrokerEnv) (switches : Switches) (id : Uuid) (db : Db) (job : Job)
    (found : get_by_id id db ≡ some job) where
  identity-guarded :
      (task : Task) (module_check handler : Result (Unit {0}))
      → HasUniqueIds db
      → map identity (guarded env task job db module_check handler).db ≡ map identity db
  unfolding publish_job
  identity-guarded task (err e) handler u =
      identity-put_found id db job (cancel_disabled job e) found refl u
  identity-guarded task (ok _) (err e) u = refl
  identity-guarded task (ok _) (ok _) u =
      identity-put_found id db job (sent_job env task job) found refl u

  identity-dispatch_row :
      HasUniqueIds db → map identity (dispatch_row env switches job db).db ≡ map identity db
  unfolding dispatch_row
  identity-dispatch_row u = elim (Option-cases (job_task job.job_type)) [
    | inl missing ↦ rw (missing, dispatch_row)
    | inr (task, known) ↦
        rw (known, dispatch_row)
          (identity-guarded task (required (job_module job.job_type) switches)
            (check_handler job.job_type) u)
  ]

-- In a table with unique ids `dispatch_job` writes no primary key and no unique key: it is a
-- dispatcher under which a repeated `create_job` returns the first job.
pub dispatch_job-KeepsIdentity :
    (env : BrokerEnv) (switches : Switches) → KeepsIdentity (dispatch_job env switches)
unfolding dispatch_job run_dispatch
dispatch_job-KeepsIdentity env switches = record {
  keeps = λ id db u. elim (Option-cases (get_by_id id db)) [
    | inl missing ↦ rw (missing, run_dispatch)
    | inr (job, found) ↦
        rw (found, run_dispatch) (identity-dispatch_row env switches id db job found u)
  ];
}

refused_by_switch :
    (code : String) (switches : Switches)
    → is_module_enabled code switches ≡ false
    → (e : Error) × (require_module code switches ≡ err e)
refused_by_switch code switches off = go (require_module code switches) refl
  where
    go :
        (r : Result (Unit {0}))
        → require_module code switches ≡ r
        → (e : Error) × (require_module code switches ≡ err e)
    go (ok _) passed = absurd (cc (off, (module_enabled_iff code switches).1.1 passed))
    go (err e) refused = (e, refused)

known_task :
    (t : JobType) (code : String)
    → job_module t ≡ some code
    → (task : Task) × (job_task t ≡ some task)
known_task (other text) code h = absurd (cc)
known_task sap_document_action code h = (process_sap_batch, refl)
known_task sap_reconciliation code h = (process_sap_batch, refl)
known_task payment_provider_email code h = (process_payment_provider_email_batch, refl)
known_task ledger_sync code h = (process_ledger_batch, refl)
known_task ledger_sync_delta code h = (process_ledger_batch, refl)
known_task ledger_reprocess code h = (process_ledger_batch, refl)
known_task analytics_extract code h = (process_analytics_batch, refl)
known_task analytics_silver_build code h = (process_analytics_silver_batch, refl)

run_disabled :
    (env : BrokerEnv) (switches : Switches) (id : Uuid) (db : Db) (job : Job) (code : String)
    (e : Error)
    → get_by_id id db ≡ some job
    → job_module job.job_type ≡ some code
    → require_module code switches ≡ err e
    → dispatch_job env switches id db ≡ (err e, put_job (cancel_disabled job e) db)
unfolding dispatch_job run_dispatch dispatch_row
run_disabled env switches id db job code e found mod_code refused =
    let (task, known) = known_task job.job_type code mod_code in
    rw (found, run_dispatch)
      (rw (known, dispatch_row) (rw (mod_code, required) (rw (refused, guarded))))

dispatch_raised :
    (env : BrokerEnv) (switches : Switches) (id : Uuid) (db after : Db) (e : Error) (row : Job)
    → dispatch_job env switches id db ≡ (err e, after)
    → get_by_id id after ≡ some row
    → (dispatch (some (dispatch_job env switches)) id db).1 ≡ put_job (dispatch_failure row) after
unfolding dispatch record_dispatch_failure
dispatch_raised env switches id db after e row raised found =
    rw raised (rw (found, record_dispatch_failure))

-- A job whose module is switched off, created or retried through `JobService`: `dispatch_job` cancels
-- it with the reason, but raises, and the handler of `_dispatch` then overwrites both. The row ends
-- as DISPATCH_FAILED with the text about the queue, and the reason is lost.
pub dispatch-module_disabled :
    (env : BrokerEnv) (switches : Switches) (id : Uuid) (db : Db) (job : Job) (code : String)
    → get_by_id id db ≡ some job
    → job_module job.job_type ≡ some code
    → is_module_enabled code switches ≡ false
    → (row : Job) × (get_by_id id (dispatch (some (dispatch_job env switches)) id db).1 ≡ some row)
      × (row.status ≡ JobStatus.dispatch_failed)
      × (row.error_summary ≡ some "No se pudo publicar la tarea en la cola")
      × (row.batches ≡ job.batches)
dispatch-module_disabled env switches id db job code found mod_code off =
    let (e, refused) = refused_by_switch code switches off in
    let sent = run_disabled env switches id db job code e found mod_code refused in
    let named = id_of-get_by_id id db job found in
    let once = get_by_id-put_job_at id db (cancel_disabled job e) job found named in
    let after = put_job (cancel_disabled job e) db in
    (
      dispatch_failure (cancel_disabled job e),
      ap (λ (d : Db). get_by_id id d)
            (dispatch_raised env switches id db after e (cancel_disabled job e) sent once)
          ∙ get_by_id-put_job_at id after (dispatch_failure (cancel_disabled job e))
              (cancel_disabled job e) once named,
      refl,
      refl,
      refl,
    )
