-- ===== src/Provisions/Lifecycle/Requests.antt =====
-- app/api/finance/provisions/provision/provision_router.py and .../provisions/access.py: the requests
-- that change a provision, the permission that each asks for, and the operation that serves it. The
-- text of a refusal and the answers are left out here; a role link without its role is skipped.
use proyecto.Common.{ℕ, String, Bool, Option, some, List, [], ◌∷◌, if◌then◌else◌}
use proyecto.Core.Errors.{http, Result, ok, err, Exec}
use proyecto.Core.Access.{User, has_permission}
use proyecto.Core.Integrity.{Refusal}
use proyecto.Core.Scope.{UserScope, UserAreaAccess, get_user_scope}
use proyecto.Jobs.Model.{Uuid, Time}
use proyecto.Provisions.Model.{ProvisionDb}
use proyecto.Provisions.Workflow.{submit_for_review, approve, reject_for_edit, reject_final, cancel}
use proyecto.Provisions.Edit.{ProvisionUpdateRequest, update_provision}
use proyecto.Provisions.Documents.{
  ProvisionDocumentRequest, add_document, ProvisionDocumentUpdateRequest, update_document,
  delete_document,
}
use proyecto.Provisions.Grants.{ProvisionAccessRequest, grant_access}
use proyecto.Provisions.Create.{ProvisionCreateRequest, create_provision}

pub data Request : Type 0 where
  post_provision : ProvisionCreateRequest → Request
  patch_document : Uuid → ProvisionDocumentUpdateRequest → Request
  remove_document : Uuid → Request
  put_provision : Uuid → ProvisionUpdateRequest → Request
  post_document : Uuid → ProvisionDocumentRequest → Request
  post_access : Uuid → ProvisionAccessRequest → Request
  post_submit : Uuid → Option String → Request
  post_approve : Uuid → Option String → Request
  post_reject_for_edit : Uuid → Option String → Request
  post_reject_final : Uuid → Option String → Request
  post_cancel : Uuid → Option String → Request

-- The clock, the ids of new rows, what the database takes, and the table of the users' areas
pub record Surroundings : Type 0 where
  pub now : Time
  pub new_id : Uuid
  pub new_ids : ℕ → Uuid
  pub refuses : ProvisionDb → Refusal
  pub user_areas : List UserAreaAccess

abbrev pub require_provision_edit : List String
require_provision_edit =
    "provisions.edit" ∷ "provisions.edit_all" ∷ "provisions.documents.edit" ∷ []

abbrev pub require_provision_access_edit : List String
require_provision_access_edit =
    "provisions.edit" ∷ "provisions.edit_all" ∷ "provisions.access.edit" ∷ []

abbrev pub review_permission : List String
review_permission = "provisions.review" ∷ []

unfoldable pub permissions_of : Request → List String
permissions_of (post_provision _) = "provisions.create" ∷ []
permissions_of (post_access _ _) = require_provision_access_edit
permissions_of (post_approve _ _) = review_permission
permissions_of (post_reject_for_edit _ _) = review_permission
permissions_of (post_reject_final _ _) = review_permission
permissions_of _ = require_provision_edit

abbrev pub can_edit_all_provisions : User → Bool
can_edit_all_provisions user = has_permission user ("provisions.edit_all" ∷ [])

abbrev pub can_view_all_provisions : User → Bool
can_view_all_provisions user =
    has_permission user ("provisions.view_all" ∷ "provisions.edit_all" ∷ "provisions.review" ∷ [])

abbrev pub resolve_provision_scope : List UserAreaAccess → User → UserScope
resolve_provision_scope table user =
    get_user_scope table user ("provisions.view_all" ∷ "provisions.edit_all" ∷ [])

abbrev pub done : {A : Type 0} → Result A × ProvisionDb → Result (Unit {0}) × ProvisionDb
done (ok a, db) = (ok tt, db)
done (err e, db) = (err e, db)

unfoldable pub serve : Surroundings → User → Request → Exec ProvisionDb (Unit {0})
serve w user (post_provision request) db = done (
    create_provision w.refuses w.new_ids w.new_id request user.id
      (some (resolve_provision_scope w.user_areas user)) db)
serve w user (patch_document document_id request) db =
    done (update_document w.refuses document_id request user.id (can_edit_all_provisions user) db)
serve w user (remove_document document_id) db =
    done (delete_document document_id user.id (can_edit_all_provisions user) db)
serve w user (put_provision provision_id request) db =
    done (update_provision w.refuses provision_id request user.id (can_edit_all_provisions user) db)
serve w user (post_document provision_id request) db =
    done (
      add_document w.refuses w.new_id provision_id request user.id (can_edit_all_provisions user)
        db)
serve w user (post_access provision_id request) db =
    done (grant_access w.refuses provision_id request user.id (can_edit_all_provisions user) db)
serve w user (post_submit provision_id comments) db =
    done (submit_for_review w.now provision_id comments user.id (can_edit_all_provisions user) db)
serve w user (post_approve provision_id comments) db =
    done (approve w.now provision_id comments user.id db)
serve w user (post_reject_for_edit provision_id comments) db =
    done (reject_for_edit w.now provision_id comments user.id db)
serve w user (post_reject_final provision_id comments) db =
    done (reject_final w.now provision_id comments user.id db)
serve w user (post_cancel provision_id comments) db =
    done (cancel w.now provision_id comments user.id (can_edit_all_provisions user) db)

-- The permission first, then the operation
unfoldable pub handle : Surroundings → User → Request → Exec ProvisionDb (Unit {0})
handle w user request db =
    if has_permission user (permissions_of request)
    then serve w user request db
    else (err (http 403 "No tienes el permiso necesario"), db)

-- A request of some user at some time
pub record Event : Type 0 where
  pub surroundings : Surroundings
  pub user : User
  pub request : Request

-- The tables after a sequence of requests, the first one first
unfoldable pub after : List Event → ProvisionDb → ProvisionDb
after [] db = db
after (e ∷ events) db = after events (handle e.surroundings e.user e.request db).1
