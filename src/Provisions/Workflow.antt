-- ===== src/Provisions/Workflow.antt =====
-- The changes of status in app/api/finance/provisions/provision/provision_service.py: submission,
-- review, cancellation, and the deletion that only marks the row. An operation that raises has written
-- nothing.
use proyecto.Common.{
  String, Bool, true, false, not, ◌||◌, Option, none, some, if◌then◌else◌, str_eq,
}
use proyecto.Core.Errors.{http, Result, ok, err, Exec, continue}
use proyecto.Core.Scope.{nonempty}
use proyecto.Jobs.Model.{Uuid, Time}
use proyecto.Provisions.Model.{
  ready_for_review_status, approved_status, rejected_for_edit_status, rejected_final_status,
  cancelled_status, ProvisionStatus, Provision, ProvisionStatusHistory, ProvisionDb,
}
use proyecto.Provisions.Repository.{
  get_provision_status_by_code, put_provision, create_status_history, documents_of,
}
use proyecto.Provisions.Access.{
  is_in, require, ensure_can_edit_access, ensure_editable, provision_or_404, and_then,
}
use proyecto.Provisions.Responses.{ProvisionDetailResponse, to_detail_response}

-- The text names the code too.
abbrev pub status_or_500 : String → Option ProvisionStatus → Result ProvisionStatus
status_or_500 code none = err (http 500 "Estado de provision no configurado")
status_or_500 code (some row) = ok row

abbrev pub get_status_or_500 : String → ProvisionDb → Result ProvisionStatus
get_status_or_500 code db = status_or_500 code (get_provision_status_by_code code db)

abbrev pub history_row : Provision → ProvisionStatus → Uuid → Option String → ProvisionStatusHistory
history_row p status user_id comments = record {
  provision_id = p.id;
  status_id = status.id;
  changed_by_user_id = some user_id;
  comments = comments;
}

-- What a transition stamps: `submitted`, `reviewed` and `close`
pub record Stamps : Type 0 where
  pub submitted : Bool
  pub reviewed : Bool
  pub close : Bool

abbrev pub stamp : {A : Type 0} → Bool → A → Option A → Option A
stamp true new old = some new
stamp false new old = old

abbrev pub moved : Time → Uuid → Stamps → ProvisionStatus → Provision → Provision
moved now user_id stamps status p = record p {
  status_id = status.id;
  updated_by = some user_id;
  submitted_at = stamp stamps.submitted now p.submitted_at;
  reviewed_by_user_id = stamp stamps.reviewed user_id p.reviewed_by_user_id;
  reviewed_at = stamp stamps.reviewed now p.reviewed_at;
  closed_at = stamp stamps.close now p.closed_at;
}

abbrev pub written :
    Time → Uuid → Option String → Stamps → ProvisionStatus → Provision → ProvisionDb → ProvisionDb
written now user_id comments stamps status p db =
    create_status_history (history_row p status user_id comments)
      (put_provision (moved now user_id stamps status p) db)

abbrev pub answered : Provision → ProvisionDb → Result ProvisionDetailResponse × ProvisionDb
answered p db = (ok (to_detail_response db p), db)

-- `_transition`
unfoldable pub transition :
    Time
    → String
    → Uuid
    → Option String
    → Stamps
    → Provision
    → Exec ProvisionDb ProvisionDetailResponse
transition now status_code user_id comments stamps p db =
    continue (get_status_or_500 status_code db)
      (λ status db.
        answered (moved now user_id stamps status p)
          (written now user_id comments stamps status p db))
      db

-- `request.comments or default`
abbrev pub comments_or : String → Option String → Option String
comments_or default none = some default
comments_or default (some comments) = if str_eq comments "" then some default else some comments

abbrev pub submittable : Uuid → Uuid → Bool → ProvisionDb → Result Provision
submittable provision_id user_id can_edit_all db = and_then (provision_or_404 provision_id db) (λ p.
    and_then
      (ensure_editable p user_id can_edit_all
        "Solo se puede enviar a revision una provision en borrador u observada" db)
      (λ p.
        and_then
          (require (nonempty (documents_of p.id db))
            (http 400 "Agrega al menos un documento antes de enviar a revision"))
          (λ _. ok p)))

unfoldable pub submit_for_review :
    Time → Uuid → Option String → Uuid → Bool → Exec ProvisionDb ProvisionDetailResponse
submit_for_review now provision_id comments user_id can_edit_all db =
    continue (submittable provision_id user_id can_edit_all db)
      (transition now ready_for_review_status user_id
        (comments_or "Provision lista para revision" comments)
        (record { submitted = true; reviewed = false; close = false }))
      db

abbrev pub reviewable : Uuid → ProvisionDb → Result Provision
reviewable provision_id db = and_then (provision_or_404 provision_id db) (λ p.
    and_then
      (require (is_in ready_for_review_status p.status_id db.statuses)
        (http 400 "Solo se pueden revisar provisiones listas para revision"))
      (λ _. ok p))

-- `_transition_review`
unfoldable pub transition_review :
    Time → Uuid → String → Uuid → Option String → Bool → Exec ProvisionDb ProvisionDetailResponse
transition_review now provision_id status_code user_id comments close db =
    continue (reviewable provision_id db)
      (transition now status_code user_id comments
        (record { submitted = false; reviewed = true; close = close }))
      db

abbrev pub approve : Time → Uuid → Option String → Uuid → Exec ProvisionDb ProvisionDetailResponse
approve now provision_id comments user_id =
    transition_review now provision_id approved_status user_id
      (comments_or "Provision aprobada" comments) true

abbrev pub reject_for_edit :
    Time → Uuid → Option String → Uuid → Exec ProvisionDb ProvisionDetailResponse
reject_for_edit now provision_id comments user_id =
    transition_review now provision_id rejected_for_edit_status user_id
      (comments_or "Provision observada para correccion" comments) false

abbrev pub reject_final :
    Time → Uuid → Option String → Uuid → Exec ProvisionDb ProvisionDetailResponse
reject_final now provision_id comments user_id =
    transition_review now provision_id rejected_final_status user_id
      (comments_or "Provision rechazada definitivamente" comments) true

-- `code in {APPROVED, REJECTED_FINAL, CANCELLED}`
unfoldable pub is_closed : Provision → ProvisionDb → Bool
is_closed p db =
    is_in approved_status p.status_id db.statuses
    || is_in rejected_final_status p.status_id db.statuses
    || is_in cancelled_status p.status_id db.statuses

abbrev pub cancellable : Uuid → Uuid → Bool → ProvisionDb → Result Provision
cancellable provision_id user_id can_edit_all db = and_then (provision_or_404 provision_id db) (λ p.
    and_then (ensure_can_edit_access p user_id can_edit_all db) (λ _.
      and_then
        (require (not (is_closed p db)) (http 400 "No se puede cancelar una provision ya cerrada"))
        (λ _. ok p)))

unfoldable pub cancel :
    Time → Uuid → Option String → Uuid → Bool → Exec ProvisionDb ProvisionDetailResponse
cancel now provision_id comments user_id can_edit_all db =
    continue (cancellable provision_id user_id can_edit_all db)
      (transition now cancelled_status user_id (comments_or "Provision cancelada" comments)
        (record { submitted = false; reviewed = false; close = true }))
      db

abbrev pub deactivated : Provision → Exec ProvisionDb Bool
deactivated p db = (ok true, put_provision (record p { active = false }) db)

unfoldable pub delete_provision : Uuid → Exec ProvisionDb Bool
delete_provision provision_id db = continue (provision_or_404 provision_id db) deactivated db
