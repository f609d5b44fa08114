-- ===== src/Provisions/Refine/Outsiders.antt =====
-- Who neither created a provision nor holds a grant that lets him write cannot touch it.
use proyecto.Common.{
  ◌≡◌, refl, sym, ◌∙◌, ap, String, false, ◌||◌, Option, none, some, inl, inr, Bool-cases,
  Option-cases, arith,
}
use mathlib.Core.Path.{subst}
use proyecto.Common.Tables.{some_inj}
use proyecto.Core.Errors.{http, err}
use proyecto.Core.Access.{User, has_permission}
use proyecto.Jobs.Model.{Uuid}
use proyecto.Provisions.Model.{Provision, ProvisionDocument, ProvisionDb}
use proyecto.Provisions.Repository.{get_provision, get_provision_document}
use proyecto.Provisions.Access.{can_edit_access}
use proyecto.Provisions.Workflow.{submit_for_review, cancel}
use proyecto.Provisions.Edit.{update_provision}
use proyecto.Provisions.Documents.{add_document, update_document, delete_document}
use proyecto.Provisions.Grants.{grant_access}
use proyecto.Provisions.Lifecycle.Requests.{
  Request, post_provision, patch_document, remove_document, put_provision, post_document,
  post_access, post_submit, post_approve, post_reject_for_edit, post_reject_final, post_cancel,
  Surroundings, serve, handle, permissions_of, can_edit_all_provisions,
}

abbrev document_target : Option ProvisionDocument → Option Uuid
document_target none = none
document_target (some d) = some d.provision_id

-- The provision that a request of an editor is about; a review and a creation are about none.
unfoldable pub target_of : Request → ProvisionDb → Option Uuid
target_of (patch_document id _) db = document_target (get_provision_document id db)
target_of (remove_document id) db = document_target (get_provision_document id db)
target_of (put_provision id _) db = some id
target_of (post_document id _) db = some id
target_of (post_access id _) db = some id
target_of (post_submit id _) db = some id
target_of (post_cancel id _) db = some id
target_of _ db = none

abbrev pub denied_text : String
denied_text = "No tienes permisos para editar esta provision"

module _ (w : Surroundings) (user : User) (db : ProvisionDb) (p : Provision)
    (denied : (can_edit_all_provisions user || can_edit_access p (some user.id) db) ≡ false) where
  at_target :
      (id other : Uuid)
      → some other ≡ some id
      → get_provision id db ≡ some p
      → get_provision other db ≡ some p
  at_target id other e found =
      subst (λ i. get_provision i db ≡ some p) (some_inj id other (sym e)) found

  of_document :
      (id document_id : Uuid)
      → document_target (get_provision_document document_id db) ≡ some id
      → get_provision id db ≡ some p
      → (d : ProvisionDocument) × (get_provision_document document_id db ≡ some d)
        × (get_provision d.provision_id db ≡ some p)
  of_document id document_id e found = elim (Option-cases (get_provision_document document_id db)) [
    | inl missing ↦ absurd (cc (e, ap document_target missing))
    | inr (d, read) ↦
        (d, read, at_target id d.provision_id (sym (ap document_target read) ∙ e) found)
  ]

  serve-outsider :
      (request : Request) (id : Uuid)
      → target_of request db ≡ some id
      → get_provision id db ≡ some p
      → serve w user request db ≡ (err (http 403 denied_text), db)
  unfolding serve target_of update_document delete_document update_provision add_document
      grant_access submit_for_review cancel
  serve-outsider (post_provision _) id e found = absurd (cc)
  serve-outsider (post_approve _ _) id e found = absurd (cc)
  serve-outsider (post_reject_for_edit _ _) id e found = absurd (cc)
  serve-outsider (post_reject_final _ _) id e found = absurd (cc)
  serve-outsider (patch_document document_id _) id e found =
      let (d, read, its) = of_document id document_id e found in rw (read, its, denied) refl
  serve-outsider (remove_document document_id) id e found =
      let (d, read, its) = of_document id document_id e found in rw (read, its, denied) refl
  serve-outsider (put_provision other _) id e found = rw (at_target id other e found, denied) refl
  serve-outsider (post_document other _) id e found = rw (at_target id other e found, denied) refl
  serve-outsider (post_access other _) id e found = rw (at_target id other e found, denied) refl
  serve-outsider (post_submit other _) id e found = rw (at_target id other e found, denied) refl
  serve-outsider (post_cancel other _) id e found = rw (at_target id other e found, denied) refl

-- Who neither created a provision nor holds an active grant of an editor, reviewer or approver, and has
-- not the permission to edit all, changes nothing of it: a request to edit it, its documents or its
-- grants, to submit or to cancel it, is refused with 403, and the tables stay as they are.
pub handle-outsider :
    (w : Surroundings) (user : User) (request : Request) (db : ProvisionDb) (id : Uuid)
    (p : Provision)
    → target_of request db ≡ some id
    → get_provision id db ≡ some p
    → can_edit_all_provisions user ≡ false
    → can_edit_access p (some user.id) db ≡ false
    → (detail : String) × (handle w user request db ≡ (err (http 403 detail), db))
unfolding handle
handle-outsider w user request db id p target found not_all no_grant =
    let denied : (can_edit_all_provisions user || can_edit_access p (some user.id) db) ≡ false =
      ground (arith, not_all, no_grant) in
    elim (Bool-cases (has_permission user (permissions_of request))) [
      | inl allowed ↦
          (denied_text, rw allowed (serve-outsider w user db p denied request id target found))
      | inr refused ↦ ("No tienes el permiso necesario", rw refused refl)
    ]
