-- ===== src/Provisions/Documents.antt =====
-- The documents of a provision in app/api/finance/provisions/provision/provision_service.py: what is
-- added, changed and removed while it is editable.
use proyecto.Common.{ℕ, String, Bool, true, ◌||◌, Option, none, some, List, [], ◌∷◌, map}
use proyecto.Common.Integers.{ℤ}
use proyecto.Core.Errors.{Result, ok, Exec, continue}
use proyecto.Core.Integrity.{Messages, raise_integrity_error, Refusal, first_refused, committed}
use proyecto.Jobs.Model.{Uuid}
use proyecto.Provisions.Model.{
  Provision, ProvisionDocument, Attachment, AttachmentRequest, ProvisionDb,
}
use proyecto.Provisions.Repository.{
  get_currency, provision_document_entity_type, create_provision_documents, put_document,
  delete_provision_document, create_attachments,
}
use proyecto.Provisions.Access.{ensure_editable, document_or_404, provision_of_document, and_then}
use proyecto.Provisions.Money.{exchange_rate_to_base, document_amount_base}
use proyecto.Provisions.Responses.{DocumentResponse, document_response}
use proyecto.Provisions.Edit.{
  editable_provision, Sent, sent_nullable, sent_required, is_null, refusal_of,
}

pub record ProvisionDocumentRequest : Type 0 where
  pub document_type : Option String
  pub document_number : Option String
  pub document_date : Option ℕ
  pub description : Option String
  pub supplier_tax_id : Option String
  pub supplier_name : Option String
  pub amount : ℤ
  pub currency_id : ℕ
  pub attachments : List AttachmentRequest

-- The id is the new row's.
abbrev pub build_document : Uuid → Uuid → ProvisionDocumentRequest → Uuid → ProvisionDocument
build_document id provision_id request user_id = record {
  id = id;
  provision_id = provision_id;
  document_type = request.document_type;
  document_number = request.document_number;
  document_date = request.document_date;
  description = request.description;
  supplier_tax_id = request.supplier_tax_id;
  supplier_name = request.supplier_name;
  amount = request.amount;
  currency_id = request.currency_id;
  created_by = some user_id;
  updated_by = none;
}

abbrev pub attachment_row : Uuid → Uuid → AttachmentRequest → Attachment
attachment_row document_id user_id file = record {
  entity_type = provision_document_entity_type;
  entity_id = document_id;
  file = file;
  created_by = some user_id;
}

abbrev pub document_references : Messages
document_references = ("provision_documents_currency_id_fkey", "La moneda indicada no existe") ∷ []

abbrev pub save_document :
    (ProvisionDb → Refusal)
    → Uuid
    → ProvisionDocumentRequest
    → Uuid
    → Provision
    → Exec ProvisionDb DocumentResponse
save_document refuses id request user_id p db =
    let document : ProvisionDocument = build_document id p.id request user_id in
    let with_document : ProvisionDb = create_provision_documents (document ∷ []) db in
    let with_files : ProvisionDb =
      create_attachments (map (attachment_row id user_id) request.attachments) with_document in
    committed (first_refused refuses (with_document ∷ with_files ∷ []))
      (raise_integrity_error [] document_references "No se pudo agregar el documento")
      (document_response with_files document) with_files db

unfoldable pub add_document :
    (ProvisionDb → Refusal)
    → Uuid
    → Uuid
    → ProvisionDocumentRequest
    → Uuid
    → Bool
    → Exec ProvisionDb DocumentResponse
add_document refuses id provision_id request user_id can_edit_all db =
    continue
      (editable_provision provision_id user_id can_edit_all
        "No se pueden agregar documentos en el estado actual" db)
      (save_document refuses id request user_id) db

pub record ProvisionDocumentUpdateRequest : Type 0 where
  pub document_type : Sent String
  pub document_number : Sent String
  pub document_date : Sent ℕ
  pub description : Sent String
  pub supplier_tax_id : Sent String
  pub supplier_name : Sent String
  pub amount : Sent ℤ
  pub currency_id : Sent ℕ

abbrev pub updated_document :
    Uuid → ProvisionDocumentUpdateRequest → ProvisionDocument → ProvisionDocument
updated_document user_id request d = record d {
  document_type = sent_nullable request.document_type d.document_type;
  document_number = sent_nullable request.document_number d.document_number;
  document_date = sent_nullable request.document_date d.document_date;
  description = sent_nullable request.description d.description;
  supplier_tax_id = sent_nullable request.supplier_tax_id d.supplier_tax_id;
  supplier_name = sent_nullable request.supplier_name d.supplier_name;
  amount = sent_required request.amount d.amount;
  currency_id = sent_required request.currency_id d.currency_id;
  updated_by = some user_id;
}

-- The answer after a change: `document.currency` was loaded with the row, and a new `currency_id` does
-- not load it again.
abbrev pub changed_response : ProvisionDb → ProvisionDocument → ProvisionDocument → DocumentResponse
changed_response db old d = record {
  document = d;
  exchange_rate_to_base = exchange_rate_to_base (get_currency old.currency_id db);
  amount_base = document_amount_base (record d { currency_id = old.currency_id }) db;
}

abbrev pub save_document_change :
    (ProvisionDb → Refusal)
    → ProvisionDocumentUpdateRequest
    → Uuid
    → ProvisionDocument
    → Exec ProvisionDb DocumentResponse
save_document_change refuses request user_id d db =
    let new : ProvisionDb = put_document (updated_document user_id request d) db in
    committed (refusal_of (is_null request.amount || is_null request.currency_id) (refuses new))
      (raise_integrity_error [] document_references "No se pudo actualizar el documento")
      (changed_response new d (updated_document user_id request d)) new db

-- The document of an editable provision
abbrev pub editable_document : Uuid → Uuid → Bool → String → ProvisionDb → Result ProvisionDocument
editable_document document_id user_id can_edit_all detail db =
    and_then (document_or_404 document_id db) (λ d.
      and_then (provision_of_document d db)
        (λ p. and_then (ensure_editable p user_id can_edit_all detail db) (λ _. ok d)))

unfoldable pub update_document :
    (ProvisionDb → Refusal)
    → Uuid
    → ProvisionDocumentUpdateRequest
    → Uuid
    → Bool
    → Exec ProvisionDb DocumentResponse
update_document refuses document_id request user_id can_edit_all db =
    continue
      (editable_document document_id user_id can_edit_all
        "No se puede editar el documento en el estado actual" db)
      (save_document_change refuses request user_id) db

abbrev pub removed : ProvisionDocument → Exec ProvisionDb Bool
removed d db = (ok true, delete_provision_document d db)

unfoldable pub delete_document : Uuid → Uuid → Bool → Exec ProvisionDb Bool
delete_document document_id user_id can_edit_all db =
    continue
      (editable_document document_id user_id can_edit_all
        "No se puede eliminar el documento en el estado actual" db)
      removed db
