-- ===== src/Provisions/Model.antt =====
-- app/models/finance/provision_model.py, with the rows of the catalogues and of the attachments that
-- the service reads and writes, and app/api/finance/provisions/constants.py. An amount is in cents, as
-- its column Numeric(18, 2) keeps it, a rate in millionths (Numeric(18, 6)); a date is a number. Rows
-- point to each other by key; a list holds its newest row first.
use proyecto.Common.{ℕ, String, Bool, Option, List}
use proyecto.Common.Integers.{ℤ}
use proyecto.Jobs.Model.{Uuid, Time}

abbrev pub pending_detail_status : String
pending_detail_status = "PENDING_DETAIL"

abbrev pub ready_for_review_status : String
ready_for_review_status = "READY_FOR_REVIEW"

abbrev pub approved_status : String
approved_status = "APPROVED"

abbrev pub rejected_for_edit_status : String
rejected_for_edit_status = "REJECTED_FOR_EDIT"

abbrev pub rejected_final_status : String
rejected_final_status = "REJECTED_FINAL"

abbrev pub cancelled_status : String
cancelled_status = "CANCELLED"

pub record ProvisionStatus : Type 0 where
  pub id : ℕ
  pub code : String

-- `master.currencies`
pub record Currency : Type 0 where
  pub id : ℕ
  pub code : String
  pub exchange_rate_to_base : Option ℤ

pub record Provision : Type 0 where
  pub id : Uuid
  pub ticket_code : String
  pub description : Option String
  pub supplier_tax_id : Option String
  pub supplier_name : Option String
  pub status_id : ℕ
  pub concept_id : ℕ
  pub area_id : ℕ
  pub currency_id : ℕ
  pub amount : ℤ
  pub provision_date : ℕ
  pub observations : Option String
  pub active : Bool
  pub submitted_at : Option Time
  pub reviewed_by_user_id : Option Uuid
  pub reviewed_at : Option Time
  pub closed_at : Option Time
  pub company_id : ℕ
  pub created_by : Option Uuid
  pub updated_by : Option Uuid

pub record ProvisionDocument : Type 0 where
  pub id : Uuid
  pub provision_id : Uuid
  pub document_type : Option String
  pub document_number : Option String
  pub document_date : Option ℕ
  pub description : Option String
  pub supplier_tax_id : Option String
  pub supplier_name : Option String
  pub amount : ℤ
  pub currency_id : ℕ
  pub created_by : Option Uuid
  pub updated_by : Option Uuid

-- The row's own number is not looked at.
pub record ProvisionAccess : Type 0 where
  pub provision_id : Uuid
  pub user_id : Uuid
  pub access_type : String
  pub active : Bool
  pub created_by : Option Uuid
  pub updated_by : Option Uuid

pub record ProvisionStatusHistory : Type 0 where
  pub provision_id : Uuid
  pub status_id : ℕ
  pub changed_by_user_id : Option Uuid
  pub comments : Option String

-- The attachment of a request
pub record AttachmentRequest : Type 0 where
  pub file_name : String
  pub file_extension : String
  pub mime_type : String
  pub storage_type : Option String
  pub file_size : Option ℕ
  pub file_path : Option String
  pub file_base64 : Option String

-- A row of `storage.attachments`, with what the request sent
pub record Attachment : Type 0 where
  pub entity_type : String
  pub entity_id : Uuid
  pub file : AttachmentRequest
  pub created_by : Option Uuid

-- A company or an area of the master catalogue
pub record MasterRow : Type 0 where
  pub id : ℕ
  pub active : Bool

pub record ProvisionDb : Type 0 where
  pub companies : List MasterRow
  pub areas : List MasterRow
  pub currencies : List Currency
  pub statuses : List ProvisionStatus
  pub provisions : List Provision
  pub documents : List ProvisionDocument
  pub access_grants : List ProvisionAccess
  pub status_history : List ProvisionStatusHistory
  pub attachments : List Attachment
