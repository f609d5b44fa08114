-- ===== src/Jobs/Listing.antt =====
-- `list_jobs` and `list_items` of app/api/jobs/service.py and repository.py, and the page that they
-- answer with (app/core/schemas.py).
pub mod Laws
mod Tests
use proyecto.Common.{
  ℕ, ◌+◌, String, Bool, true, false, not, ◌&&◌, ◌||◌, Option, none, some, List, [], ◌∷◌, ◌++◌, ◌==◌,
  str_eq, ltb, length, take, drop, select, if◌then◌else◌,
}
use proyecto.Core.Errors.{Result, ok, err}
use proyecto.Jobs.Model.{
  Uuid, JobType, job_type_value, JobStatus, job_status_value, JobItemStatus, JobItem, Job,
  job_items, is_pending, is_running, is_succeeded, is_failed, is_cancelled,
}
use proyecto.Jobs.Repository.{Db}
use proyecto.Jobs.Service.{get_job}

-- `PageResponse`
pub record Page {ℓ} (A : Type ℓ) : Type ℓ where
  pub items : List A
  pub total : ℕ
  pub limit : ℕ
  pub offset : ℕ
  pub has_more : Bool

-- The query's `count`, `offset` and `limit`, and `PageResponse.build`
unfoldable pub page {ℓ} : {A : Type ℓ} → List A → ℕ → ℕ → Page A
page rows limit offset =
    let shown = take limit (drop offset rows) in
    record {
      items = shown;
      total = length rows;
      limit = limit;
      offset = offset;
      has_more = ltb (offset + length shown) (length rows);
    }

pub record JobFilter : Type 0 where
  pub user_id : Option Uuid
  pub job_type : Option JobType
  pub status : Option JobStatus
  pub scheduled_job_id : Option Uuid

-- A filter that is `None` lets every row pass.
abbrev pub by_user : Option Uuid → Job → Bool
by_user none job = true
by_user (some id) job = job.created_by == id

abbrev pub by_type : Option JobType → Job → Bool
by_type none job = true
by_type (some t) job = str_eq (job_type_value job.job_type) (job_type_value t)

abbrev pub by_status : Option JobStatus → Job → Bool
by_status none job = true
by_status (some s) job = str_eq (job_status_value job.status) (job_status_value s)

abbrev pub by_schedule : Option Uuid → Job → Bool
by_schedule none job = true
by_schedule (some id) job = elim job.scheduled_job_id [ none ↦ false | some s ↦ s == id ]

abbrev pub passes : JobFilter → Job → Bool
passes f job =
    by_user f.user_id job
    && by_type f.job_type job
    && by_status f.status job
    && by_schedule f.scheduled_job_id job

-- `order_by(Job.created_at.desc())` over a table with the newest row last
abbrev pub newest_first : Db → Db
newest_first [] = []
newest_first (job ∷ db) = newest_first db ++ (job ∷ [])

abbrev pub user_filter : Uuid → Bool → Bool → Option Uuid
user_filter current_user_id can_view_all mine =
    if mine || not can_view_all then some current_user_id else none

-- The rows of `list_jobs`, of which it shows a page
unfoldable pub listed : Uuid → Bool → Bool → JobFilter → Db → List Job
listed current_user_id can_view_all mine f db =
    select (passes (record f { user_id = user_filter current_user_id can_view_all mine }))
      (newest_first db)

abbrev pub list_jobs : Uuid → Bool → Bool → JobFilter → ℕ → ℕ → Db → Page Job
list_jobs current_user_id can_view_all mine f limit offset db =
    page (listed current_user_id can_view_all mine f db) limit offset

abbrev pub has_status : JobItemStatus → JobItem → Bool
has_status JobItemStatus.pending item = is_pending item
has_status JobItemStatus.running item = is_running item
has_status JobItemStatus.succeeded item = is_succeeded item
has_status JobItemStatus.failed item = is_failed item
has_status JobItemStatus.cancelled item = is_cancelled item

abbrev pub item_passes : Option JobItemStatus → JobItem → Bool
item_passes none item = true
item_passes (some s) item = has_status s item

abbrev pub items_of :
    (List JobItem → List JobItem)
    → Option JobItemStatus
    → ℕ
    → ℕ
    → Result Job
    → Result (Page JobItem)
items_of ordered status limit offset (err e) = err e
items_of ordered status limit offset (ok job) =
    ok (page (ordered (select (item_passes status) (job_items job))) limit offset)

-- Items of a job are created together, so that their random keys order them: `ordered`.
unfoldable pub list_items :
    (List JobItem → List JobItem)
    → Uuid
    → Uuid
    → Bool
    → Option JobItemStatus
    → ℕ
    → ℕ
    → Db
    → Result (Page JobItem)
list_items ordered job_id user_id can_view_all status limit offset db =
    items_of ordered status limit offset (get_job job_id user_id can_view_all db).0
