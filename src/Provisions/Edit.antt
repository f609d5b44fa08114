-- ===== src/Provisions/Edit.antt =====
-- The changes of a provision's content in app/api/finance/provisions/provision/provision_service.py: the
-- fields of its row. The database decides whether it takes what is flushed
-- (`refuses`); what it refuses is rolled back and becomes an error with a text.
use proyecto.Common.{ℕ, String, Bool, true, false, ◌||◌, Option, none, some, [], ◌∷◌}
use proyecto.Common.Integers.{ℤ}
use proyecto.Core.Errors.{Result, Exec, continue}
use proyecto.Core.Integrity.{Messages, raise_integrity_error, Refusal, committed}
use proyecto.Jobs.Model.{Uuid}
use proyecto.Provisions.Model.{Provision, ProvisionDb}
use proyecto.Provisions.Repository.{put_provision}
use proyecto.Provisions.Access.{ensure_editable, provision_or_404, and_then}

-- A field of an update: not sent, sent as null, or sent with a value.
pub data Sent (A : Type 0) : Type 0 where
  unset : Sent A
  null : Sent A
  value : A → Sent A

-- `setattr` of a column that may be NULL
abbrev pub sent_nullable : {A : Type 0} → Sent A → Option A → Option A
sent_nullable unset old = old
sent_nullable null old = none
sent_nullable (value new) old = some new

-- `setattr` of a column that is NOT NULL; the database refuses the null before it is written.
abbrev pub sent_required : {A : Type 0} → Sent A → A → A
sent_required unset old = old
sent_required null old = old
sent_required (value new) old = new

abbrev pub is_null : {A : Type 0} → Sent A → Bool
is_null unset = false
is_null null = true
is_null (value new) = false

pub record ProvisionUpdateRequest : Type 0 where
  pub description : Sent String
  pub supplier_tax_id : Sent String
  pub supplier_name : Sent String
  pub concept_id : Sent ℕ
  pub area_id : Sent ℕ
  pub currency_id : Sent ℕ
  pub amount : Sent ℤ
  pub provision_date : Sent ℕ
  pub observations : Sent String

-- The loop over `request.model_dump(exclude_unset=True)`
abbrev pub updated : Uuid → ProvisionUpdateRequest → Provision → Provision
updated user_id request p = record p {
  description = sent_nullable request.description p.description;
  supplier_tax_id = sent_nullable request.supplier_tax_id p.supplier_tax_id;
  supplier_name = sent_nullable request.supplier_name p.supplier_name;
  concept_id = sent_required request.concept_id p.concept_id;
  area_id = sent_required request.area_id p.area_id;
  currency_id = sent_required request.currency_id p.currency_id;
  amount = sent_required request.amount p.amount;
  provision_date = sent_required request.provision_date p.provision_date;
  observations = sent_nullable request.observations p.observations;
  updated_by = some user_id;
}

abbrev pub nulls_provision : ProvisionUpdateRequest → Bool
nulls_provision r =
    is_null r.concept_id
    || is_null r.area_id
    || is_null r.currency_id
    || is_null r.amount
    || is_null r.provision_date

-- A broken NOT NULL comes before what the constraints say.
abbrev pub refusal_of : Bool → Refusal → Refusal
refusal_of true refusal = some none
refusal_of false refusal = refusal

abbrev pub update_references : Messages
update_references =
    ("provisions_concept_id_fkey", "El concepto indicado no existe")
    ∷ ("provisions_area_id_fkey", "El area indicada no existe")
    ∷ ("provisions_currency_id_fkey", "La moneda indicada no existe")
    ∷ []

-- The guard of the edits: the provision, if this user may edit it in its state
abbrev pub editable_provision : Uuid → Uuid → Bool → String → ProvisionDb → Result Provision
editable_provision provision_id user_id can_edit_all detail db =
    and_then (provision_or_404 provision_id db)
      (λ p. ensure_editable p user_id can_edit_all detail db)

abbrev pub save_updated :
    (ProvisionDb → Refusal) → Uuid → ProvisionUpdateRequest → Provision → Exec ProvisionDb Provision
save_updated refuses user_id request p db =
    let new : ProvisionDb = put_provision (updated user_id request p) db in
    committed (refusal_of (nulls_provision request) (refuses new))
      (raise_integrity_error [] update_references "No se pudo actualizar la provision")
      (updated user_id request p) new db

unfoldable pub update_provision :
    (ProvisionDb → Refusal)
    → Uuid
    → ProvisionUpdateRequest
    → Uuid
    → Bool
    → Exec ProvisionDb Provision
update_provision refuses provision_id request user_id can_edit_all db =
    continue
      (editable_provision provision_id user_id can_edit_all
        "La provision no se puede editar en su estado actual" db)
      (save_updated refuses user_id request) db
