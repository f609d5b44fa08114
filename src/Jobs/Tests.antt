-- ===== src/Jobs/Tests.antt =====
-- Runs of the job service on a small request, and the theorems about it at that request.
use proyecto.Common.{
  ◌+◌, ◌<◌, String, ◌≡◌, refl, false, none, some, List, [], ◌∷◌, map, arith, All, ◌==◌,
}
use proyecto.Common.Value.{Dict}
use proyecto.Core.Errors.{Result, ok, err}
use proyecto.Core.Modules.{
  Switches, is_module_enabled, require_module, get_disabled_reason, read_row,
}
use proyecto.Jobs.Model.{
  Uuid, sap_reconciliation, JobTriggerSource, JobStatus, JobBatchStatus, Job, job_items,
}
use proyecto.Jobs.Repository.{Db, get_by_id, put_job, get_by_idempotency_key}
use proyecto.Jobs.Batching.{contains, from_keys}
use proyecto.Jobs.Batching.Laws.{IsDistinct, references_of}
use proyecto.Jobs.Service.{get_job, dispatch, record_dispatch_failure}
use proyecto.Jobs.Create.{
  JobRequest, Surroundings, new_job, create_job, find_or_insert, insert_and_dispatch,
}
use proyecto.Jobs.Create.Idempotent.{create_job_twice}
use proyecto.Jobs.Create.Batches.{
  new_job_batches, new_job-IsConsistent, IsFresh, sequences, count_up,
}
use proyecto.Jobs.Cancel.{cancel_job}
use proyecto.Jobs.Cancel.Effect.{cancel_job_effect, IsCancelled}
use proyecto.Jobs.Dispatcher.{
  BrokerEnv, heavy, process_sap_batch, publish_from, publish_job, dispatch_job, run_dispatch,
  dispatch_row, resolve_job_queue, get_sap_item_handler,
}
use proyecto.Jobs.Dispatcher.Laws.{accounted, publish-accounted}
use proyecto.Jobs.Dispatcher.Rows.{dispatch_job-KeepsIdentity, dispatch-module_disabled}

-- Four references, one of them twice, in batches of two.
abbrev request_of_three : JobRequest
request_of_three = record {
  job_type = sap_reconciliation;
  parameters = Dict.empty;
  references = "10" ∷ "20" ∷ "10" ∷ "30" ∷ [];
  user_id = 7;
  batch_size = 2;
  idempotency_key = some "click";
  parent_job_id = none;
  scheduled_job_id = none;
  trigger_source = JobTriggerSource.api;
  encrypted_secrets = none;
  item_payloads = [];
}

abbrev surroundings : Uuid → Surroundings
surroundings id = record { job_id = id; batch_id = λ n. 100 + n; committed_meanwhile = [] }

-- The broker takes the first message and refuses the second.
abbrev broker_env : BrokerEnv
broker_env = record { task_id = λ k. 500 + k; accepts = λ k. k == 0 }

abbrev all_on : Switches
all_on = record { modules_disabled = []; modules = [] }

abbrev sap_off : Switches
sap_off = record { modules_disabled = "sap" ∷ []; modules = [] }

abbrev three_references : List String
three_references = "10" ∷ "20" ∷ "30" ∷ []

abbrev inserted_job : Job
inserted_job = new_job (surroundings 1) request_of_three (from_keys request_of_three.references)

from_keys_run : from_keys request_of_three.references ≡ three_references
unfolding from_keys
from_keys_run = refl

new_job_run :
    (map (λ b. references_of b.items) inserted_job.batches ≡ ("10" ∷ "20" ∷ []) ∷ ("30" ∷ []) ∷ [])
    × (inserted_job.total_items ≡ 3)
    × (inserted_job.total_batches ≡ 2)
unfolding new_job from_keys
new_job_run = (refl, refl, refl)

-- The first call, which publishes one batch, and the database it leaves.
abbrev publisher : Uuid → Db → Result (Unit {0}) × Db
publisher = dispatch_job broker_env all_on

abbrev first_call : Result Job × Db
first_call = create_job (surroundings 1) request_of_three (some publisher) []

abbrev job_or : Job → Result Job → Job
job_or job (ok made) = made
job_or job (err e) = job

abbrev created_job : Job
created_job = job_or inserted_job first_call.0

abbrev database : Db
database = first_call.1

-- One batch is queued, the other waits, and the job tells that its dispatch failed.
first_call_run :
    (map (λ b. b.status) created_job.batches ≡ JobBatchStatus.queued ∷ JobBatchStatus.pending ∷ [])
    × (created_job.status ≡ JobStatus.dispatch_failed)
unfolding create_job find_or_insert insert_and_dispatch new_job from_keys dispatch dispatch_job
    run_dispatch dispatch_row publish_job publish_from get_job get_by_id put_job
    record_dispatch_failure get_by_idempotency_key get_sap_item_handler resolve_job_queue
    require_module get_disabled_reason read_row
first_call_run = (refl, refl)

create_job_twice_example :
    (again : Job) × (create_job (surroundings 2) request_of_three none database
      ≡ (ok again, database))
    × (again.id ≡ created_job.id)
unfolding create_job find_or_insert insert_and_dispatch new_job from_keys dispatch dispatch_job
    run_dispatch dispatch_row publish_job publish_from get_job get_by_id put_job
    record_dispatch_failure get_by_idempotency_key get_sap_item_handler resolve_job_queue
    require_module get_disabled_reason read_row
create_job_twice_example =
    create_job_twice request_of_three "click" (surroundings 1) (surroundings 2) publisher none []
      database created_job refl (dispatch_job-KeepsIdentity broker_env all_on) tt refl (refl, tt)
      refl

positive_size : 0 < 2
positive_size = omega arith

new_job_batches_example :
    (references_of (job_items inserted_job) ≡ from_keys request_of_three.references)
    × IsDistinct (references_of (job_items inserted_job))
    × ((ref : String)
        → contains (references_of (job_items inserted_job)) ref
          ≡ contains request_of_three.references ref)
    × (sequences inserted_job.batches ≡ count_up 1 inserted_job.total_batches)
    × All (IsFresh 2) inserted_job.batches
new_job_batches_example = new_job_batches (surroundings 1) request_of_three positive_size

publish-accounted_example :
    let sent = publish_from broker_env process_sap_batch heavy 0 inserted_job.batches in
    sent.messages ≡ accounted process_sap_batch heavy inserted_job.batches sent.batches
publish-accounted_example =
    publish-accounted broker_env process_sap_batch heavy 0 inserted_job.batches

-- A job whose module is switched off.
abbrev one_job : Db
one_job = inserted_job ∷ []

dispatch-module_disabled_example :
    (row : Job) × (get_by_id 1 (dispatch (some (dispatch_job broker_env sap_off)) 1 one_job).1
      ≡ some row)
    × (row.status ≡ JobStatus.dispatch_failed)
    × (row.error_summary ≡ some "No se pudo publicar la tarea en la cola")
    × (row.batches ≡ inserted_job.batches)
unfolding get_by_id new_job is_module_enabled get_disabled_reason
dispatch-module_disabled_example =
    dispatch-module_disabled broker_env sap_off 1 one_job inserted_job "sap" refl refl refl

cancel_job_effect_example :
    (after : Job) × ((cancel_job 50 1 7 false one_job).0 ≡ ok after)
    × (get_by_id 1 (cancel_job 50 1 7 false one_job).1 ≡ some after)
    × IsCancelled 50 7 inserted_job after
unfolding get_by_id new_job
cancel_job_effect_example =
    cancel_job_effect 50 1 7 false one_job inserted_job refl refl refl
      (new_job-IsConsistent (surroundings 1) request_of_three positive_size)
