-- ===== src/Provisions/Lifecycle/Effect.antt =====
-- What one operation does to the tables: nothing, one change of status with its entry in the history, a
-- change of an editable provision's own fields or documents, a deletion, a grant, or a new provision.
use proyecto.Common.{◌≡◌, ◌⊎◌, String, true, false, none, some, List, ◌∷◌, ◌++◌, ◌==◌, select, All}
use proyecto.Core.Scope.{nonempty}
use proyecto.Jobs.Model.{Uuid}
use proyecto.Provisions.Model.{
  pending_detail_status, ready_for_review_status, approved_status, rejected_for_edit_status,
  rejected_final_status, cancelled_status, ProvisionStatus, Provision, ProvisionDocument,
  ProvisionAccess, ProvisionStatusHistory, Attachment, ProvisionDb,
}
use proyecto.Provisions.Repository.{
  get_provision, get_provision_status_by_code, put_provision, create_status_history, documents_of,
  is_document_of,
}
use proyecto.Provisions.Access.{is_in, can_edit}
use proyecto.Provisions.Workflow.{is_closed}

-- Which statuses a provision may be given, by the state it is in.
pub data Move (db : ProvisionDb) (p : Provision) : String → Type 0 where
  submitted :
      can_edit p db ≡ true
      → nonempty (documents_of p.id db) ≡ true
      → Move db p ready_for_review_status
  approved :
      is_in ready_for_review_status p.status_id db.statuses ≡ true → Move db p approved_status
  returned :
      is_in ready_for_review_status p.status_id db.statuses ≡ true
      → Move db p rejected_for_edit_status
  rejected :
      is_in ready_for_review_status p.status_id db.statuses ≡ true → Move db p rejected_final_status
  cancelled : is_closed p db ≡ false → Move db p cancelled_status

-- The fields that only an edit changes
abbrev pub SameContent : Provision → Provision → Type 0
SameContent p q =
    (q.amount ≡ p.amount)
    × (q.currency_id ≡ p.currency_id)
    × (q.concept_id ≡ p.concept_id)
    × (q.area_id ≡ p.area_id)
    × (q.provision_date ≡ p.provision_date)
    × (q.ticket_code ≡ p.ticket_code)

-- The documents of the other provisions are those of before.
abbrev pub OnlyDocumentsOf : Uuid → ProvisionDb → List ProvisionDocument → Type 0
OnlyDocumentsOf id db documents =
    (other : Uuid)
    → (id == other) ≡ false
    → select (is_document_of other) documents ≡ select (is_document_of other) db.documents

-- The rows of a new provision: its id is new, it is in its first status, and so says the history.
pub record IsNew (db : ProvisionDb) (p : Provision) (s : ProvisionStatus)
    (documents : List ProvisionDocument) (h : ProvisionStatusHistory) : Type 0 where
  pub fresh : get_provision p.id db ≡ none
  pub first_status : get_provision_status_by_code pending_detail_status db ≡ some s
  pub in_it : p.status_id ≡ s.id
  pub history_of : h.provision_id ≡ p.id
  pub history_status : h.status_id ≡ s.id
  pub its_documents : All (λ (d : ProvisionDocument). d.provision_id ≡ p.id) documents

pub data Effect (db : ProvisionDb) : ProvisionDb → Type 0 where
  unchanged : Effect db db
  moved_to :
      (p q : Provision) (code : String) (s : ProvisionStatus) (h : ProvisionStatusHistory)
      → get_provision p.id db ≡ some p
      → get_provision_status_by_code code db ≡ some s
      → Move db p code
      → (q.id ≡ p.id) × (q.status_id ≡ s.id) × SameContent p q
      → (h.provision_id ≡ p.id) × (h.status_id ≡ s.id)
      → Effect db (create_status_history h (put_provision q db))
  row_changed :
      (p q : Provision)
      → get_provision p.id db ≡ some p
      → (q.id ≡ p.id) × (q.status_id ≡ p.status_id)
      → (can_edit p db ≡ true) ⊎ SameContent p q
      → Effect db (put_provision q db)
  documents_changed :
      (p : Provision) (documents : List ProvisionDocument) (attachments : List Attachment)
      → get_provision p.id db ≡ some p
      → can_edit p db ≡ true
      → OnlyDocumentsOf p.id db documents
      → Effect db (record db { documents = documents; attachments = attachments })
  granted :
      (access_grants : List ProvisionAccess)
      → Effect db (record db { access_grants = access_grants })
  created :
      (p : Provision) (s : ProvisionStatus) (documents : List ProvisionDocument)
      (access_grants : List ProvisionAccess) (h : ProvisionStatusHistory)
      (attachments : List Attachment)
      → IsNew db p s documents h
      → Effect db (record db {
        provisions = p ∷ db.provisions;
        documents = documents ++ db.documents;
        attachments = attachments;
        access_grants = access_grants;
        status_history = h ∷ db.status_history;
      })
