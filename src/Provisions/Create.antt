-- ===== src/Provisions/Create.antt =====
-- `create_provision` of app/api/finance/provisions/provision/provision_service.py: the row in its first
-- status with its documents, their files, the granted accesses and the first entry of the history, in
-- one transaction. The new rows' ids are given.
use proyecto.Common.{
  ℕ, suc, String, Bool, true, false, not, ◌||◌, Option, none, some, List, [], ◌∷◌, ◌++◌, map, any,
  ◌==◌,
}
use proyecto.Common.Integers.{ℤ}
use proyecto.Common.Chars.{strip}
use proyecto.Core.Errors.{conflict, Result, ok, get_or_404, Exec, continue}
use proyecto.Core.Integrity.{Messages, raise_integrity_error, Refusal, first_refused, committed}
use proyecto.Core.Scope.{UserScope, assert_in_scope}
use proyecto.Jobs.Model.{Uuid}
use proyecto.Provisions.Model.{
  pending_detail_status, ProvisionStatus, Provision, ProvisionDocument, ProvisionAccess, Attachment,
  ProvisionDb,
}
use proyecto.Provisions.Repository.{
  get_active, get_provision_by_ticket, create_provision_row, create_provision_documents,
  create_attachments, create_provision_access, create_status_history,
}
use proyecto.Provisions.Access.{require, and_then}
use proyecto.Provisions.Workflow.{get_status_or_500, history_row}
use proyecto.Provisions.Documents.{ProvisionDocumentRequest, build_document, attachment_row}
use proyecto.Provisions.Grants.{ProvisionAccessRequest, new_access}

pub record ProvisionCreateRequest : Type 0 where
  pub ticket_code : String
  pub description : Option String
  pub supplier_tax_id : Option String
  pub supplier_name : Option String
  pub concept_id : ℕ
  pub area_id : ℕ
  pub currency_id : ℕ
  pub company_id : ℕ
  pub amount : ℤ
  pub provision_date : ℕ
  pub observations : Option String
  pub access : List ProvisionAccessRequest
  pub documents : List ProvisionDocumentRequest

-- `len(access_user_ids) != len(set(access_user_ids))`
abbrev pub is_for : Uuid → ProvisionAccessRequest → Bool
is_for user_id request = request.user_id == user_id

abbrev pub repeats_user : List ProvisionAccessRequest → Bool
repeats_user [] = false
repeats_user (r ∷ requests) = any (is_for r.user_id) requests || repeats_user requests

abbrev pub is_some : {A : Type 0} → Option A → Bool
is_some none = false
is_some (some a) = true

abbrev pub within : Option UserScope → ProvisionCreateRequest → Result (Unit {0})
within none request = ok tt
within (some scope) request =
    assert_in_scope scope (some request.company_id) (some request.area_id)
      "No puedes crear registros para esa empresa/area"

abbrev pub ticket_conflict : String
ticket_conflict = "Ya existe una provision con este codigo para la empresa"

-- What is checked before anything is written
abbrev pub creatable : Option UserScope → ProvisionCreateRequest → ProvisionDb → Result (Unit {0})
creatable scope request db =
    and_then
      (get_or_404 (get_active request.company_id db.companies)
        "La empresa indicada no existe o esta inactiva")
      (λ _.
        and_then
          (get_or_404 (get_active request.area_id db.areas)
            "El area indicada no existe o esta inactiva")
          (λ _. and_then (within scope request) (λ _.
            and_then
              (require (not (repeats_user request.access))
                (conflict "No se puede repetir el mismo usuario en los accesos"))
              (λ _.
                require
                  (not (
                    is_some
                      (get_provision_by_ticket request.company_id (strip request.ticket_code) db)))
                  (conflict ticket_conflict)))))

abbrev pub new_provision : Uuid → ProvisionCreateRequest → Uuid → ProvisionStatus → Provision
new_provision id request user_id status = record {
  id = id;
  ticket_code = strip request.ticket_code;
  description = request.description;
  supplier_tax_id = request.supplier_tax_id;
  supplier_name = request.supplier_name;
  status_id = status.id;
  concept_id = request.concept_id;
  area_id = request.area_id;
  currency_id = request.currency_id;
  amount = request.amount;
  provision_date = request.provision_date;
  observations = request.observations;
  active = true;
  submitted_at = none;
  reviewed_by_user_id = none;
  reviewed_at = none;
  closed_at = none;
  company_id = request.company_id;
  created_by = some user_id;
  updated_by = none;
}

-- The k-th document gets the k-th id.
abbrev pub build_documents :
    (ℕ → Uuid) → ℕ → Uuid → List ProvisionDocumentRequest → Uuid → List ProvisionDocument
build_documents ids k provision_id [] user_id = []
build_documents ids k provision_id (r ∷ requests) user_id =
    build_document (ids k) provision_id r user_id
    ∷ build_documents ids (suc k) provision_id requests user_id

abbrev pub document_attachments :
    (ℕ → Uuid) → ℕ → List ProvisionDocumentRequest → Uuid → List Attachment
document_attachments ids k [] user_id = []
document_attachments ids k (r ∷ requests) user_id =
    map (attachment_row (ids k) user_id) r.attachments
    ++ document_attachments ids (suc k) requests user_id

abbrev pub access_items : Uuid → List ProvisionAccessRequest → Uuid → List ProvisionAccess
access_items provision_id [] user_id = []
access_items provision_id (r ∷ requests) user_id =
    new_access provision_id r user_id ∷ access_items provision_id requests user_id

abbrev pub create_conflicts : Messages
create_conflicts =
    ("provisions_company_id_ticket_code_key", ticket_conflict)
    ∷ ("uq_provision_access_user", "Uno de los usuarios ya tiene acceso a la provision")
    ∷ []

abbrev pub create_references : Messages
create_references =
    ("provisions_company_id_fkey", "La empresa indicada no existe")
    ∷ ("provisions_concept_id_fkey", "El concepto indicado no existe")
    ∷ ("provisions_area_id_fkey", "El area indicada no existe")
    ∷ ("provisions_currency_id_fkey", "La moneda indicada no existe")
    ∷ ("provision_access_user_id_fkey", "Uno de los usuarios de acceso no existe")
    ∷ ("provision_documents_currency_id_fkey", "La moneda de uno de los documentos no existe")
    ∷ []

module _ (refuses : ProvisionDb → Refusal) (ids : ℕ → Uuid) (id : Uuid)
    (request : ProvisionCreateRequest) (user_id : Uuid) where
  abbrev pub with_row : ProvisionStatus → ProvisionDb → ProvisionDb
  with_row status db = create_provision_row (new_provision id request user_id status) db

  abbrev pub with_documents : ProvisionStatus → ProvisionDb → ProvisionDb
  with_documents status db =
      create_provision_documents (build_documents ids 0 id request.documents user_id)
        (with_row status db)

  abbrev pub with_attachments : ProvisionStatus → ProvisionDb → ProvisionDb
  with_attachments status db =
      create_attachments (document_attachments ids 0 request.documents user_id)
        (with_documents status db)

  abbrev pub with_access : ProvisionStatus → ProvisionDb → ProvisionDb
  with_access status db =
      create_provision_access (access_items id request.access user_id) (with_attachments status db)

  abbrev pub with_history : ProvisionStatus → ProvisionDb → ProvisionDb
  with_history status db =
      create_status_history
        (history_row (new_provision id request user_id status) status user_id
          (some "Creacion inicial"))
        (with_access status db)

  -- The five flushes and the commit
  abbrev pub write_all : ProvisionStatus → Exec ProvisionDb Provision
  write_all status db =
      committed
        (first_refused refuses (
          with_row status db
          ∷ with_documents status db
          ∷ with_attachments status db
          ∷ with_access status db
          ∷ with_history status db
          ∷ []))
        (raise_integrity_error create_conflicts create_references "No se pudo crear la provision")
        (new_provision id request user_id status) (with_history status db) db

  unfoldable pub create_provision : Option UserScope → Exec ProvisionDb Provision
  create_provision scope db =
      continue
        (and_then (creatable scope request db) (λ _. get_status_or_500 pending_detail_status db))
        write_all db
