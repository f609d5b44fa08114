-- ===== src/Provisions/Refine/Atomic.antt =====
-- A request that is answered with an error has written nothing.
use proyecto.Core.Scope.{UserScope}
use proyecto.Common.{
  ℕ, ◌≡◌, refl, Bool, true, false, Option, none, some, inl, inr, Bool-cases, String,
}
use proyecto.Core.Errors.{Error, Result, ok, err, Exec, continue}
use proyecto.Core.Access.{User, has_permission}
use proyecto.Core.Integrity.{Refusal, committed}
use proyecto.Jobs.Model.{Uuid, Time}
use proyecto.Provisions.Model.{
  Provision, ProvisionAccess, ProvisionDb, pending_detail_status, ready_for_review_status,
  approved_status, rejected_for_edit_status, rejected_final_status, cancelled_status,
}
use proyecto.Provisions.Repository.{get_provision_access}
use proyecto.Provisions.Access.{and_then}
use proyecto.Provisions.Workflow.{
  Stamps, get_status_or_500, answered, moved, written, transition, submittable, submit_for_review,
  reviewable, transition_review, cancellable, cancel, comments_or,
}
use proyecto.Provisions.Edit.{
  editable_provision, save_updated, update_provision, ProvisionUpdateRequest,
}
use proyecto.Provisions.Documents.{
  save_document, add_document, editable_document, save_document_change, update_document, removed,
  delete_document, ProvisionDocumentRequest, ProvisionDocumentUpdateRequest,
}
use proyecto.Provisions.Grants.{ProvisionAccessRequest, grantable, grant_to, grant_of, grant_access}
use proyecto.Provisions.Create.{ProvisionCreateRequest, creatable, write_all, create_provision}
use proyecto.Provisions.Lifecycle.Requests.{
  Request, post_provision, patch_document, remove_document, put_provision, post_document,
  post_access, post_submit, post_approve, post_reject_for_edit, post_reject_final, post_cancel,
  Surroundings, serve, handle, permissions_of, done, can_edit_all_provisions,
  resolve_provision_scope,
}

abbrev pub IsAtomic : {A : Type 0} → ProvisionDb → Result A × ProvisionDb → Type 0
IsAtomic db r = (e : Error) → r.0 ≡ err e → r.1 ≡ db

continue-IsAtomic :
    {A B : Type 0} (db : ProvisionDb) (r : Result A) (f : A → Exec ProvisionDb B)
    → ((a : A) → IsAtomic db (f a db))
    → IsAtomic db (continue r f db)
continue-IsAtomic db (ok a) f h e q = h a e q
continue-IsAtomic db (err x) f h e q = refl

ok-IsAtomic : {A : Type 0} (db new : ProvisionDb) (a : A) → IsAtomic db (ok a, new)
ok-IsAtomic db new a e q = absurd (cc)

committed-IsAtomic :
    {A : Type 0} (db new : ProvisionDb) (refusal : Refusal) (error : Option String → Error) (a : A)
    → IsAtomic db (committed refusal error a new db)
unfolding committed
committed-IsAtomic db new none error a e q = absurd (cc)
committed-IsAtomic db new (some name) error a e q = refl

transition-IsAtomic :
    (now : Time) (code : String) (user_id : Uuid) (comments : Option String) (stamps : Stamps)
    (p : Provision) (db : ProvisionDb)
    → IsAtomic db (transition now code user_id comments stamps p db)
unfolding transition
transition-IsAtomic now code user_id comments stamps p db =
    continue-IsAtomic db (get_status_or_500 code db)
      (λ status db.
        answered (moved now user_id stamps status p)
          (written now user_id comments stamps status p db))
      (λ s e q. absurd (cc))

grant_to-IsAtomic :
    (refuses : ProvisionDb → Refusal) (request : ProvisionAccessRequest) (user_id : Uuid)
    (p : Provision) (db : ProvisionDb) (existing : Option ProvisionAccess)
    → IsAtomic db (grant_to refuses request user_id p existing db)
grant_to-IsAtomic refuses request user_id p db none e q = committed-IsAtomic db _ _ _ _ e q
grant_to-IsAtomic refuses request user_id p db (some existing) e q = absurd (cc)

review-IsAtomic :
    (now : Time) (id : Uuid) (code : String) (user_id : Uuid) (comments : Option String)
    (close : Bool) (db : ProvisionDb)
    → IsAtomic db (transition_review now id code user_id comments close db)
unfolding transition_review
review-IsAtomic now id code user_id comments close db =
    continue-IsAtomic db (reviewable id db)
      (transition now code user_id comments
        (record { submitted = false; reviewed = true; close = close }))
      (λ p. transition-IsAtomic now code user_id comments _ p db)

done-IsAtomic :
    {A : Type 0} (db : ProvisionDb) (r : Result A × ProvisionDb)
    → IsAtomic db r
    → IsAtomic db (done r)
done-IsAtomic db (ok a, later) h e q = absurd (cc)
done-IsAtomic db (err x, later) h e q = h x refl

module _ (refuses : ProvisionDb → Refusal) (user_id : Uuid) (all : Bool) (db : ProvisionDb) where
  update_provision-IsAtomic :
      (id : Uuid) (request : ProvisionUpdateRequest)
      → IsAtomic db (update_provision refuses id request user_id all db)
  unfolding update_provision
  update_provision-IsAtomic id request =
      continue-IsAtomic db
        (editable_provision id user_id all "La provision no se puede editar en su estado actual" db)
        (save_updated refuses user_id request) (λ p. committed-IsAtomic db _ _ _ _)

  add_document-IsAtomic :
      (new_id id : Uuid) (request : ProvisionDocumentRequest)
      → IsAtomic db (add_document refuses new_id id request user_id all db)
  unfolding add_document
  add_document-IsAtomic new_id id request =
      continue-IsAtomic db
        (editable_provision id user_id all "No se pueden agregar documentos en el estado actual" db)
        (save_document refuses new_id request user_id) (λ p. committed-IsAtomic db _ _ _ _)

  update_document-IsAtomic :
      (id : Uuid) (request : ProvisionDocumentUpdateRequest)
      → IsAtomic db (update_document refuses id request user_id all db)
  unfolding update_document
  update_document-IsAtomic id request =
      continue-IsAtomic db
        (editable_document id user_id all "No se puede editar el documento en el estado actual" db)
        (save_document_change refuses request user_id) (λ d. committed-IsAtomic db _ _ _ _)

  delete_document-IsAtomic : (id : Uuid) → IsAtomic db (delete_document id user_id all db)
  unfolding delete_document
  delete_document-IsAtomic id =
      continue-IsAtomic db
        (editable_document id user_id all "No se puede eliminar el documento en el estado actual"
          db)
        removed (λ d e q. absurd (cc))

  grant_access-IsAtomic :
      (id : Uuid) (request : ProvisionAccessRequest)
      → IsAtomic db (grant_access refuses id request user_id all db)
  unfolding grant_access
  grant_access-IsAtomic id request =
      continue-IsAtomic db (grantable id user_id all db) (grant_of refuses request user_id) (λ p.
        grant_to-IsAtomic refuses request user_id p db
          (get_provision_access p.id request.user_id db))

  submit_for_review-IsAtomic :
      (now : Time) (id : Uuid) (comments : Option String)
      → IsAtomic db (submit_for_review now id comments user_id all db)
  unfolding submit_for_review
  submit_for_review-IsAtomic now id comments =
      continue-IsAtomic db (submittable id user_id all db)
        (transition now ready_for_review_status user_id
          (comments_or "Provision lista para revision" comments)
          (record { submitted = true; reviewed = false; close = false }))
        (λ p. transition-IsAtomic now ready_for_review_status user_id _ _ p db)

  cancel-IsAtomic :
      (now : Time) (id : Uuid) (comments : Option String)
      → IsAtomic db (cancel now id comments user_id all db)
  unfolding cancel
  cancel-IsAtomic now id comments =
      continue-IsAtomic db (cancellable id user_id all db)
        (transition now cancelled_status user_id (comments_or "Provision cancelada" comments)
          (record { submitted = false; reviewed = false; close = true }))
        (λ p. transition-IsAtomic now cancelled_status user_id _ _ p db)

  create_provision-IsAtomic :
      (ids : ℕ → Uuid) (id : Uuid) (request : ProvisionCreateRequest) (scope : Option UserScope)
      → IsAtomic db (create_provision refuses ids id request user_id scope db)
  unfolding create_provision
  create_provision-IsAtomic ids id request scope =
      continue-IsAtomic db
        (and_then (creatable scope request db) (λ _. get_status_or_500 pending_detail_status db))
        (write_all refuses ids id request user_id) (λ s. committed-IsAtomic db _ _ _ _)

module _ (w : Surroundings) (user : User) (db : ProvisionDb) where
  serve-IsAtomic : (request : Request) → IsAtomic db (serve w user request db)
  unfolding serve
  serve-IsAtomic (post_provision r) = done-IsAtomic db _ (
      create_provision-IsAtomic w.refuses user.id true db w.new_ids w.new_id r
        (some (resolve_provision_scope w.user_areas user)))
  serve-IsAtomic (patch_document id r) =
      done-IsAtomic db _
        (update_document-IsAtomic w.refuses user.id (can_edit_all_provisions user) db id r)
  serve-IsAtomic (remove_document id) =
      done-IsAtomic db _
        (delete_document-IsAtomic w.refuses user.id (can_edit_all_provisions user) db id)
  serve-IsAtomic (put_provision id r) =
      done-IsAtomic db _
        (update_provision-IsAtomic w.refuses user.id (can_edit_all_provisions user) db id r)
  serve-IsAtomic (post_document id r) =
      done-IsAtomic db _
        (add_document-IsAtomic w.refuses user.id (can_edit_all_provisions user) db w.new_id id r)
  serve-IsAtomic (post_access id r) =
      done-IsAtomic db _
        (grant_access-IsAtomic w.refuses user.id (can_edit_all_provisions user) db id r)
  serve-IsAtomic (post_submit id c) =
      done-IsAtomic db _
        (submit_for_review-IsAtomic w.refuses user.id (can_edit_all_provisions user) db w.now id c)
  serve-IsAtomic (post_approve id c) =
      done-IsAtomic db _ (review-IsAtomic w.now id approved_status user.id _ true db)
  serve-IsAtomic (post_reject_for_edit id c) =
      done-IsAtomic db _ (review-IsAtomic w.now id rejected_for_edit_status user.id _ false db)
  serve-IsAtomic (post_reject_final id c) =
      done-IsAtomic db _ (review-IsAtomic w.now id rejected_final_status user.id _ true db)
  serve-IsAtomic (post_cancel id c) =
      done-IsAtomic db _
        (cancel-IsAtomic w.refuses user.id (can_edit_all_provisions user) db w.now id c)

-- A request that is answered with an error leaves every table as it was: a refusal by the permission,
-- by a guard, by the missing status or by a constraint of the database.
pub handle-IsAtomic :
    (w : Surroundings) (user : User) (request : Request) (db : ProvisionDb) (e : Error)
    → (handle w user request db).0 ≡ err e
    → (handle w user request db).1 ≡ db
unfolding handle
handle-IsAtomic w user request db e q =
    elim (Bool-cases (has_permission user (permissions_of request))) [
      | inl allowed ↦ rw allowed (serve-IsAtomic w user db request e (rw allowed at q))
      | inr denied ↦ rw denied refl
    ]
