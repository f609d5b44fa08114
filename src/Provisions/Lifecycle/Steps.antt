-- ===== src/Provisions/Lifecycle/Steps.antt =====
-- Each request has one of the effects, and one that is answered with an error has none.
use proyecto.Common.{◌≡◌, inl, inr, Bool-cases, none, some}
use proyecto.Core.Errors.{Result, ok, err}
use proyecto.Core.Access.{User, has_permission}
use proyecto.Provisions.Model.{ProvisionDb}
use proyecto.Provisions.Repository.{get_provision}
use proyecto.Provisions.Lifecycle.Effect.{Effect, unchanged}
use proyecto.Provisions.Lifecycle.Moves.{
  submit_for_review-Effect, approve-Effect, reject_for_edit-Effect, reject_final-Effect,
  cancel-Effect,
}
use proyecto.Provisions.Lifecycle.Edits.{
  update_provision-Effect, add_document-Effect, update_document-Effect, delete_document-Effect,
  grant_access-Effect, create_provision-Effect,
}
use proyecto.Provisions.Lifecycle.Requests.{
  Request, post_provision, patch_document, remove_document, put_provision, post_document,
  post_access, post_submit, post_approve, post_reject_for_edit, post_reject_final, post_cancel,
  Surroundings, serve, handle, permissions_of, can_edit_all_provisions, resolve_provision_scope,
  done,
}

done-Effect :
    {A : Type 0} (db : ProvisionDb) (r : Result A × ProvisionDb)
    → Effect db r.1
    → Effect db (done r).1
done-Effect db (ok a, after) e = e
done-Effect db (err x, after) e = e

module _ (w : Surroundings) (user : User) (db : ProvisionDb)
    (fresh : get_provision w.new_id db ≡ none) where
  pub serve-Effect : (request : Request) → Effect db (serve w user request db).1
  unfolding serve
  serve-Effect (post_provision request) = done-Effect db _ (
      create_provision-Effect w.refuses w.new_ids w.new_id request user.id
        (some (resolve_provision_scope w.user_areas user)) db fresh)
  serve-Effect (patch_document id request) =
      done-Effect db _
        (update_document-Effect w.refuses user.id (can_edit_all_provisions user) db id request)
  serve-Effect (remove_document id) =
      done-Effect db _
        (delete_document-Effect w.refuses user.id (can_edit_all_provisions user) db id)
  serve-Effect (put_provision id request) =
      done-Effect db _
        (update_provision-Effect w.refuses user.id (can_edit_all_provisions user) db id request)
  serve-Effect (post_document id request) =
      done-Effect db _ (
        add_document-Effect w.refuses user.id (can_edit_all_provisions user) db w.new_id id request)
  serve-Effect (post_access id request) =
      done-Effect db _
        (grant_access-Effect w.refuses user.id (can_edit_all_provisions user) db id request)
  serve-Effect (post_submit id comments) =
      done-Effect db _
        (submit_for_review-Effect w.now id comments user.id db (can_edit_all_provisions user))
  serve-Effect (post_approve id comments) =
      done-Effect db _ (approve-Effect w.now id comments user.id db)
  serve-Effect (post_reject_for_edit id comments) =
      done-Effect db _ (reject_for_edit-Effect w.now id comments user.id db)
  serve-Effect (post_reject_final id comments) =
      done-Effect db _ (reject_final-Effect w.now id comments user.id db)
  serve-Effect (post_cancel id comments) =
      done-Effect db _ (cancel-Effect w.now id comments user.id db (can_edit_all_provisions user))

  pub handle-Effect : (request : Request) → Effect db (handle w user request db).1
  unfolding handle
  handle-Effect request = elim (Bool-cases (has_permission user (permissions_of request))) [
    | inl allowed ↦ rw allowed (serve-Effect request)
    | inr denied ↦ rw denied unchanged
  ]
