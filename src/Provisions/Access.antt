-- ===== src/Provisions/Access.antt =====
-- Who may see or change a provision, and in which states: the helpers of
-- app/api/finance/provisions/provision/provision_service.py. A provision's status is a foreign key, so
-- its row exists; without one nothing is open.
pub mod Laws
use proyecto.Common.{
  ℕ, String, Bool, true, false, not, ◌&&◌, ◌||◌, Option, none, some, List, [], ◌∷◌, ◌==◌, str_eq,
  if◌then◌else◌, any,
}
use proyecto.Core.Errors.{Error, http, Result, ok, err, get_or_404, continue}
use proyecto.Jobs.Model.{Uuid}
use proyecto.Provisions.Model.{
  pending_detail_status, rejected_for_edit_status, ProvisionStatus, Provision, ProvisionDocument,
  ProvisionAccess, ProvisionDb,
}
use proyecto.Provisions.Repository.{
  get_provision, get_provision_document, status_row, access_of, provision_document_entity_type,
}

abbrev pub has_code : String → Option ProvisionStatus → Bool
has_code code none = false
has_code code (some row) = str_eq row.code code

-- `provision.status.code == code`
unfoldable pub is_in : String → ℕ → List ProvisionStatus → Bool
is_in code status_id statuses = has_code code (status_row status_id statuses)

unfoldable pub can_edit : Provision → ProvisionDb → Bool
can_edit p db =
    is_in pending_detail_status p.status_id db.statuses
    || is_in rejected_for_edit_status p.status_id db.statuses

abbrev pub created_it : Provision → Uuid → Bool
created_it p user_id = elim p.created_by [ none ↦ false | some creator ↦ creator == user_id ]

-- The access of an active grant
abbrev pub may_view : Uuid → ProvisionAccess → Bool
may_view user_id a = a.active && a.user_id == user_id

abbrev pub is_writer : String → Bool
is_writer access_type =
    str_eq access_type "editor" || str_eq access_type "reviewer" || str_eq access_type "approver"

abbrev pub may_edit : Uuid → ProvisionAccess → Bool
may_edit user_id a = a.active && a.user_id == user_id && is_writer a.access_type

unfoldable pub can_view : Provision → Option Uuid → ProvisionDb → Bool
can_view p none db = false
can_view p (some user_id) db = created_it p user_id || any (may_view user_id) (access_of p.id db)

unfoldable pub can_edit_access : Provision → Option Uuid → ProvisionDb → Bool
can_edit_access p none db = false
can_edit_access p (some user_id) db =
    created_it p user_id || any (may_edit user_id) (access_of p.id db)

-- `if not test: raise error`
abbrev pub require : Bool → Error → Result (Unit {0})
require true error = ok tt
require false error = err error

abbrev pub ensure_can_edit_access : Provision → Uuid → Bool → ProvisionDb → Result (Unit {0})
ensure_can_edit_access p user_id can_edit_all db =
    require (can_edit_all || can_edit_access p (some user_id) db)
      (http 403 "No tienes permisos para editar esta provision")

-- `_get_or_404` and `_get_document_or_404`, which raise the framework's exception
abbrev pub found_or_404 : {A : Type 0} → Option A → String → Result A
found_or_404 none detail = err (http 404 detail)
found_or_404 (some a) detail = ok a

abbrev pub provision_or_404 : Uuid → ProvisionDb → Result Provision
provision_or_404 provision_id db =
    found_or_404 (get_provision provision_id db) "Provision no encontrada"

abbrev pub document_or_404 : Uuid → ProvisionDb → Result ProvisionDocument
document_or_404 document_id db =
    found_or_404 (get_provision_document document_id db) "Documento de provision no encontrado"

abbrev pub and_then : {A B : Type 0} → Result A → (A → Result B) → Result B
and_then (ok a) f = f a
and_then (err e) f = err e

-- The row of a foreign key that is not null
abbrev pub provision_of_document : ProvisionDocument → ProvisionDb → Result Provision
provision_of_document d db = provision_or_404 d.provision_id db

-- The guard of the operations that change a provision: access first, then its state.
abbrev pub ensure_editable : Provision → Uuid → Bool → String → ProvisionDb → Result Provision
ensure_editable p user_id can_edit_all detail db =
    and_then (ensure_can_edit_access p user_id can_edit_all db)
      (λ _. and_then (require (can_edit p db) (http 400 detail)) (λ _. ok p))

abbrev pub ensure_view : Provision → Option Uuid → Bool → String → ProvisionDb → Result Provision
ensure_view p user_id can_view_all detail db =
    and_then (require (can_view_all || can_view p user_id db) (http 403 detail)) (λ _. ok p)

abbrev pub entity_provision : String → Uuid → ProvisionDb → Result Provision
entity_provision entity_type entity_id db =
    if str_eq entity_type "provision"
    then provision_or_404 entity_id db
    else if str_eq entity_type provision_document_entity_type
    then and_then (document_or_404 entity_id db) (λ d. provision_of_document d db)
    else err (http 400 "Tipo de entidad no soportado para archivos")

-- `ensure_entity_access`: may the user touch the files of this entity?
unfoldable pub ensure_entity_access :
    String → Uuid → Uuid → Bool → Bool → Bool → ProvisionDb → Result Provision
ensure_entity_access entity_type entity_id user_id write can_view_all can_edit_all db =
    and_then (entity_provision entity_type entity_id db) (λ p.
      if write
      then ensure_editable p user_id can_edit_all
          "No se pueden modificar archivos en el estado actual de la provision" db
      else ensure_view p (some user_id) can_view_all "No tienes permisos para ver esta provision"
          db)
