-- ===== src/Provisions/Lifecycle/Edits.antt =====
-- The effect of each change of a provision's content, of a grant and of a creation.
use proyecto.Common.{
  ◌≡◌, refl, sym, ℕ, suc, String, Bool, true, false, Option, none, some, List, [], ◌∷◌, inl, arith,
  ==_iff, All, ◌==◌,
}
use mathlib.Core.Path.{subst}
use proyecto.Common.Tables.{
  select-replace_other, select-remove_other, find_found, replace_first, remove_first,
}
use proyecto.Core.Errors.{ok}
use proyecto.Core.Integrity.{Refusal, committed}
use proyecto.Core.Scope.{UserScope}
use proyecto.Jobs.Model.{Uuid}
use proyecto.Provisions.Model.{
  pending_detail_status, Provision, ProvisionDocument, ProvisionAccess, ProvisionDb,
}
use proyecto.Provisions.Repository.{
  get_provision, get_provision_document, get_provision_status_by_code, is_document_of,
  get_provision_access,
}
use proyecto.Provisions.Access.{
  can_edit, ensure_editable, provision_or_404, document_or_404, provision_of_document, and_then,
}
use proyecto.Provisions.Access.Laws.{
  ok_inj, and_then_passed, found_passed, provision_passed, editable_passed,
}
use proyecto.Provisions.Workflow.{get_status_or_500}
use proyecto.Provisions.Edit.{
  ProvisionUpdateRequest, update_provision, updated, editable_provision, save_updated,
}
use proyecto.Provisions.Documents.{
  ProvisionDocumentRequest, build_document, add_document, ProvisionDocumentUpdateRequest,
  updated_document, editable_document, update_document, delete_document, save_document,
  save_document_change, removed,
}
use proyecto.Provisions.Grants.{ProvisionAccessRequest, grant_to, grant_access, grantable, grant_of}
use proyecto.Provisions.Create.{
  ProvisionCreateRequest, build_documents, creatable, new_provision, create_provision, write_all,
}
use proyecto.Provisions.Lifecycle.Effect.{
  Effect, unchanged, row_changed, documents_changed, granted, created,
}
use proyecto.Provisions.Lifecycle.Moves.{continue-Effect, status_passed}

-- What the database refuses leaves the tables alone.
committed-Effect :
    {A : Type 0} (db new : ProvisionDb) (refusal : Refusal) (error : _) (a : A)
    → Effect db new
    → Effect db (committed refusal error a new db).1
unfolding committed
committed-Effect db new none error a e = e
committed-Effect db new (some name) error a e = unchanged

module _ (refuses : ProvisionDb → Refusal) (user_id : Uuid) (all : Bool) (db : ProvisionDb) where
  guarded_passed :
      (id : Uuid) (detail : String) (q : Provision)
      → editable_provision id user_id all detail db ≡ ok q
      → (get_provision q.id db ≡ some q) × (can_edit q db ≡ true)
  guarded_passed id detail q h =
      let (p, found, h1) = and_then_passed (provision_or_404 id db) _ q h in
      let (same, open_state, _) = editable_passed p q user_id all detail db h1 in
      (
        subst (λ r. get_provision r.id db ≡ some r) same (provision_passed id db p found),
        subst (λ r. can_edit r db ≡ true) same open_state,
      )

  pub update_provision-Effect :
      (id : Uuid) (request : ProvisionUpdateRequest)
      → Effect db (update_provision refuses id request user_id all db).1
  unfolding update_provision
  update_provision-Effect id request =
      continue-Effect db
        (editable_provision id user_id all "La provision no se puede editar en su estado actual" db)
        (save_updated refuses user_id request)
        (λ p e.
          let (found, open_state) = guarded_passed id _ p e in
          committed-Effect db _ _ _ _
            (row_changed p (updated user_id request p) found (refl, refl) (inl open_state)))

  pub add_document-Effect :
      (new_id id : Uuid) (request : ProvisionDocumentRequest)
      → Effect db (add_document refuses new_id id request user_id all db).1
  unfolding add_document
  add_document-Effect new_id id request =
      continue-Effect db
        (editable_provision id user_id all "No se pueden agregar documentos en el estado actual" db)
        (save_document refuses new_id request user_id)
        (λ p e.
          let (found, open_state) = guarded_passed id _ p e in
          committed-Effect db _ _ _ _ (
            documents_changed p (build_document new_id p.id request user_id ∷ db.documents) _ found
              open_state (λ other away. rw away refl)))

  editable_document_passed :
      (id : Uuid) (detail : String) (d : ProvisionDocument)
      → editable_document id user_id all detail db ≡ ok d
      → (p : Provision) × (get_provision_document d.id db ≡ some d)
        × (p.id ≡ d.provision_id)
        × (get_provision p.id db ≡ some p)
        × (can_edit p db ≡ true)
  editable_document_passed id detail d h =
      let (c, read, h1) = and_then_passed (document_or_404 id db) _ d h in
      let (p, found, h2) = and_then_passed (provision_of_document c db) _ d h1 in
      let (q, editable, h3) = and_then_passed (ensure_editable p user_id all detail db) _ d h2 in
      let e : c ≡ d = ok_inj c d h3 in
      let (same, open_state, _) = editable_passed p q user_id all detail db editable in
      let found_doc : get_provision_document id db ≡ some c = found_passed _ _ c read in
      let own : c.id ≡ id =
        (==_iff c.id id).0 (find_found (λ x. x.id == id) db.documents c found_doc) in
      let its : p.id ≡ c.provision_id =
        (==_iff p.id c.provision_id).0
          (find_found (λ x. x.id == c.provision_id) db.provisions p (found_passed _ _ p found)) in
      (
        p,
        subst (λ x. get_provision_document x.id db ≡ some x) e
            (subst (λ i. get_provision_document i db ≡ some c) (sym own) found_doc),
        subst (λ x. p.id ≡ x.provision_id) e its,
        provision_passed c.provision_id db p found,
        open_state,
      )

  pub update_document-Effect :
      (id : Uuid) (request : ProvisionDocumentUpdateRequest)
      → Effect db (update_document refuses id request user_id all db).1
  unfolding update_document
  update_document-Effect id request =
      continue-Effect db
        (editable_document id user_id all "No se puede editar el documento en el estado actual" db)
        (save_document_change refuses request user_id)
        (λ d e.
          let (p, read, its, found, open_state) = editable_document_passed id _ d e in
          committed-Effect db _ _ _ _ (
            documents_changed p
              (replace_first (λ x. x.id == d.id) (updated_document user_id request d) db.documents)
              db.attachments found open_state
              (λ other away.
                let not_its : (d.provision_id == other) ≡ false = ground (arith, its, away) in
                select-replace_other (λ x. x.id == d.id) (is_document_of other)
                  (updated_document user_id request d) d db.documents not_its read not_its)))

  pub delete_document-Effect : (id : Uuid) → Effect db (delete_document id user_id all db).1
  unfolding delete_document
  delete_document-Effect id =
      continue-Effect db
        (editable_document id user_id all "No se puede eliminar el documento en el estado actual"
          db)
        (removed)
        (λ d e.
          let (p, read, its, found, open_state) = editable_document_passed id _ d e in
          documents_changed p (remove_first (λ x. x.id == d.id) db.documents) _ found open_state
            (λ other away.
              let not_its : (d.provision_id == other) ≡ false = ground (arith, its, away) in
              select-remove_other (λ x. x.id == d.id) (is_document_of other) d db.documents read
                not_its))

  grant_to-Effect :
      (request : ProvisionAccessRequest) (p : Provision) (existing : Option ProvisionAccess)
      → Effect db (grant_to refuses request user_id p existing db).1
  grant_to-Effect request p none = committed-Effect db _ _ _ _ (granted _)
  grant_to-Effect request p (some existing) = granted _

  pub grant_access-Effect :
      (id : Uuid) (request : ProvisionAccessRequest)
      → Effect db (grant_access refuses id request user_id all db).1
  unfolding grant_access
  grant_access-Effect id request =
      continue-Effect db (grantable id user_id all db) (grant_of refuses request user_id)
        (λ p e. grant_to-Effect request p (get_provision_access p.id request.user_id db))

build_documents-All :
    (ids : ℕ → Uuid) (k : ℕ) (id : Uuid) (requests : List ProvisionDocumentRequest) (user_id : Uuid)
    → All
        (λ (d : ProvisionDocument). d.provision_id ≡ id)
        (build_documents ids k id requests user_id)
build_documents-All ids k id [] user_id = tt
build_documents-All ids k id (r ∷ requests) user_id =
    (refl, build_documents-All ids (suc k) id requests user_id)

pub create_provision-Effect :
    (refuses : ProvisionDb → Refusal) (ids : ℕ → Uuid) (id : Uuid)
    (request : ProvisionCreateRequest) (user_id : Uuid) (scope : Option UserScope)
    (db : ProvisionDb)
    → get_provision id db ≡ none
    → Effect db (create_provision refuses ids id request user_id scope db).1
unfolding create_provision
create_provision-Effect refuses ids id request user_id scope db fresh =
    continue-Effect db
      (and_then (creatable scope request db) (λ _. get_status_or_500 pending_detail_status db))
      (write_all refuses ids id request user_id)
      (λ s e.
        let (u, _, configured) = and_then_passed (creatable scope request db) _ s e in
        committed-Effect db _ _ _ _ (
          created (new_provision id request user_id s) s
            (build_documents ids 0 id request.documents user_id) _ _ _
            (record {
              fresh = fresh;
              first_status =
                  status_passed pending_detail_status
                    (get_provision_status_by_code pending_detail_status db) s configured;
              in_it = refl;
              history_of = refl;
              history_status = refl;
              its_documents = build_documents-All ids 0 id request.documents user_id;
            })))
