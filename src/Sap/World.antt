-- ===== src/Sap/World.antt =====
-- What the database and SAP answer to the worker of a batch. A batch under way is written by its
-- worker alone (app/api/sap/service/sap_job_service.py, app/core/exceptions.py).
use proyecto.Common.{ℕ, String, Bool, true, false, Option}
use proyecto.Jobs.Model.{Time, JobStatus}

-- What a call to SAP raises: a refusal of the request with its status code, no login, no connection,
-- the time limit of the task, or anything else. The texts are those that `safe_sap_error` returns.
pub data SapError : Type 0 where
  request : ℕ → String → SapError
  authentication : String → SapError
  connection timeout unexpected : SapError

pub record World : Type 0 where
  pub now : Time
  -- whether the conditional UPDATE of the batch finds it
  pub claims : Bool
  -- `jobs.status` when the worker loads the job, when it starts the job, and at each later refresh
  pub loaded_status : JobStatus
  pub status_at_start : JobStatus
  pub status_after_claim : JobStatus
  pub observed : ℕ → JobStatus
  -- the login, and the answer to each call of `handler.execute`
  pub login : Option SapError
  pub answer : ℕ → Option SapError

-- `_is_cancel_requested`
abbrev pub is_cancel_requested : JobStatus → Bool
is_cancel_requested JobStatus.cancel_requested = true
is_cancel_requested JobStatus.cancelled = true
is_cancel_requested _ = false
