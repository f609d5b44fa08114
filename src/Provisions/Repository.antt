-- ===== src/Provisions/Repository.antt =====
-- app/api/finance/provisions/provision/provision_repository.py: reads and writes by key. A row is found
-- by its primary key, so there is one at most, and what an operation changes of a row in the session
-- is written at the next flush.
use proyecto.Common.{
  ℕ, String, Bool, not, ◌&&◌, Option, List, ◌∷◌, ◌++◌, ◌==◌, str_eq, find, select,
}
use proyecto.Common.Tables.{replace_first, remove_first}
use proyecto.Jobs.Model.{Uuid}
use proyecto.Provisions.Model.{
  ProvisionStatus, Currency, Provision, ProvisionDocument, ProvisionAccess, ProvisionStatusHistory,
  Attachment, MasterRow, ProvisionDb,
}

abbrev pub provision_document_entity_type : String
provision_document_entity_type = "provision_document"

abbrev pub get_provision_status_by_code : String → ProvisionDb → Option ProvisionStatus
get_provision_status_by_code code db = find (λ s. str_eq s.code code) db.statuses

-- `provision.status`
abbrev pub status_row : ℕ → List ProvisionStatus → Option ProvisionStatus
status_row status_id statuses = find (λ s. s.id == status_id) statuses

abbrev pub get_provision : Uuid → ProvisionDb → Option Provision
get_provision provision_id db = find (λ p. p.id == provision_id) db.provisions

abbrev pub get_provision_by_ticket : ℕ → String → ProvisionDb → Option Provision
get_provision_by_ticket company_id ticket_code db =
    find (λ p. p.company_id == company_id && str_eq p.ticket_code ticket_code) db.provisions

-- The table once this row was flushed
abbrev pub put_row : Provision → List Provision → List Provision
put_row p rows = replace_first (λ q. q.id == p.id) p rows

abbrev pub create_provision_row : Provision → ProvisionDb → ProvisionDb
create_provision_row p db = record db { provisions = p ∷ db.provisions }

abbrev pub put_provision : Provision → ProvisionDb → ProvisionDb
put_provision p db = record db { provisions = put_row p db.provisions }

abbrev pub get_provision_document : Uuid → ProvisionDb → Option ProvisionDocument
get_provision_document document_id db = find (λ d. d.id == document_id) db.documents

-- `provision.documents`
abbrev pub is_document_of : Uuid → ProvisionDocument → Bool
is_document_of provision_id d = d.provision_id == provision_id

abbrev pub documents_of : Uuid → ProvisionDb → List ProvisionDocument
documents_of provision_id db = select (is_document_of provision_id) db.documents

abbrev pub create_provision_documents : List ProvisionDocument → ProvisionDb → ProvisionDb
create_provision_documents documents db = record db { documents = documents ++ db.documents }

abbrev pub put_document_row : ProvisionDocument → List ProvisionDocument → List ProvisionDocument
put_document_row d rows = replace_first (λ e. e.id == d.id) d rows

abbrev pub put_document : ProvisionDocument → ProvisionDb → ProvisionDb
put_document d db = record db { documents = put_document_row d db.documents }

-- The files of the document go with it.
abbrev pub is_attachment_of : Uuid → Attachment → Bool
is_attachment_of document_id a =
    str_eq a.entity_type provision_document_entity_type && a.entity_id == document_id

abbrev pub delete_provision_document : ProvisionDocument → ProvisionDb → ProvisionDb
delete_provision_document document db = record db {
  attachments = select (λ a. not (is_attachment_of document.id a)) db.attachments;
  documents = remove_first (λ d. d.id == document.id) db.documents;
}

-- `provision.access_grants`
abbrev pub is_grant_of : Uuid → ProvisionAccess → Bool
is_grant_of provision_id a = a.provision_id == provision_id

abbrev pub access_of : Uuid → ProvisionDb → List ProvisionAccess
access_of provision_id db = select (is_grant_of provision_id) db.access_grants

abbrev pub is_grant_to : Uuid → Uuid → ProvisionAccess → Bool
is_grant_to provision_id user_id a = a.provision_id == provision_id && a.user_id == user_id

abbrev pub get_provision_access : Uuid → Uuid → ProvisionDb → Option ProvisionAccess
get_provision_access provision_id user_id db =
    find (is_grant_to provision_id user_id) db.access_grants

abbrev pub create_provision_access : List ProvisionAccess → ProvisionDb → ProvisionDb
create_provision_access items db = record db { access_grants = items ++ db.access_grants }

-- The pair is unique, `uq_provision_access_user`.
abbrev pub put_access_row : ProvisionAccess → List ProvisionAccess → List ProvisionAccess
put_access_row a rows = replace_first (is_grant_to a.provision_id a.user_id) a rows

abbrev pub put_access : ProvisionAccess → ProvisionDb → ProvisionDb
put_access a db = record db { access_grants = put_access_row a db.access_grants }

abbrev pub create_attachments : List Attachment → ProvisionDb → ProvisionDb
create_attachments rows db = record db { attachments = rows ++ db.attachments }

abbrev pub create_status_history : ProvisionStatusHistory → ProvisionDb → ProvisionDb
create_status_history h db = record db { status_history = h ∷ db.status_history }

abbrev pub get_currency : ℕ → ProvisionDb → Option Currency
get_currency currency_id db = find (λ c. c.id == currency_id) db.currencies

-- `only_active=True`
abbrev pub get_active : ℕ → List MasterRow → Option MasterRow
get_active id rows = find (λ r. r.id == id && r.active) rows
