-- ===== src/Payments/Providers.antt =====
-- The suppliers: the operations of `PaymentProviderService` that write a row, and the reads that they and
-- the grouping need (app/api/finance/payment_provider, payment_provider_service.py and
-- payment_provider_repository.py; app/models/finance/payment_provider_model.py).
pub mod Laws
pub mod Registry
pub mod Gone
use proyecto.Common.{
  ℕ, Bool, true, false, not, ◌||◌, Option, none, some, List, [], ◌∷◌, map, ◌==◌, if◌then◌else◌, any,
  find, select,
}
use proyecto.Common.Tables.{replace_first}
use proyecto.Core.Errors.{ok, err, Error, not_found, conflict, type_error, Exec}
use proyecto.Core.Integrity.{Messages, Refusal, raise_integrity_error, committed}
use proyecto.Jobs.Model.{Uuid}
use proyecto.Payments.Text.{Text, Unicode, text_eq, strip, normalizar_texto}
use proyecto.Payments.Amounts.{nonempty_text}
use proyecto.Payments.Groups.{Provider}

-- `emails_payments` may be a JSON null.
pub record PaymentProvider : Type 0 where
  pub id : Uuid
  pub tax_id : Text
  pub legal_name : Text
  pub commercial_names : List Text
  pub normalized_names : List Text
  pub emails_payments : Option (List Text)
  pub active : Bool
  pub created_by : Option Uuid
  pub updated_by : Option Uuid

-- The table, in the order in which the database sorts the names
abbrev pub Providers : Type 0
Providers = List PaymentProvider

abbrev pub has_id : Uuid → PaymentProvider → Bool
has_id id row = row.id == id

abbrev pub has_tax : Text → PaymentProvider → Bool
has_tax tax_id row = text_eq row.tax_id tax_id

unfoldable pub get_provider_by_tax_id : Text → Providers → Option PaymentProvider
get_provider_by_tax_id tax_id db = find (has_tax tax_id) db

abbrev pub is_active : PaymentProvider → Bool
is_active row = row.active

abbrev pub list_active_providers : Providers → Providers
list_active_providers db = select is_active db

-- What the grouping reads of a row; it treats a missing list as an empty one.
abbrev pub or_none : Option (List Text) → List Text
or_none none = []
or_none (some texts) = texts

abbrev pub provider_row : PaymentProvider → Provider
provider_row row = record {
  id = row.id;
  tax_id = some row.tax_id;
  legal_name = row.legal_name;
  normalized_names = row.normalized_names;
  emails_payments = or_none row.emails_payments;
}

-- `list(dict.fromkeys(normalizar_texto(name) for name in names if name))`
abbrev pub unseen : List Text → List Text → List Text
unseen seen [] = []
unseen seen (name ∷ names) =
    let rest = unseen seen names in
    let fresh = unseen (name ∷ seen) names in
    if any (λ t. text_eq t name) seen then rest else name ∷ fresh

unfoldable pub build_normalized_names : Unicode → Text → List Text → List Text
build_normalized_names u legal_name commercial_names =
    unseen [] (map (normalizar_texto u) (select nonempty_text (legal_name ∷ commercial_names)))

pub record ProviderCreate : Type 0 where
  pub tax_id : Text
  pub legal_name : Text
  pub commercial_names : List Text
  pub emails_payments : List Text
  pub active : Bool

-- A field that was not sent is `none`, one that was sent as null is `some none`.
pub record ProviderUpdate : Type 0 where
  pub tax_id : Option (Option Text)
  pub legal_name : Option (Option Text)
  pub commercial_names : Option (Option (List Text))
  pub emails_payments : Option (Option (List Text))
  pub active : Option (Option Bool)

abbrev pub tax_taken : Error
tax_taken = conflict "Ya existe un proveedor con este RUC/RUT"

abbrev pub tax_messages : Messages
tax_messages = ("uq_payment_provider_tax_id", "Ya existe un proveedor con este RUC/RUT") ∷ []

-- `_commit_provider`
abbrev pub commit_provider : Refusal → PaymentProvider → Providers → Exec Providers PaymentProvider
commit_provider refusal row new old =
    committed refusal (raise_integrity_error tax_messages [] "No se pudo guardar la informacion")
      row new old

abbrev pub new_provider : Unicode → Uuid → Uuid → ProviderCreate → PaymentProvider
new_provider u id user_id request = record {
  id = id;
  tax_id = strip request.tax_id;
  legal_name = request.legal_name;
  commercial_names = request.commercial_names;
  normalized_names = build_normalized_names u request.legal_name request.commercial_names;
  emails_payments = some request.emails_payments;
  active = request.active;
  created_by = some user_id;
  updated_by = none;
}

abbrev pub is_found : Option PaymentProvider → Bool
is_found none = false
is_found (some row) = true

unfoldable pub create_provider :
    Unicode → Refusal → Uuid → Uuid → ProviderCreate → Exec Providers PaymentProvider
create_provider u refusal id user_id request db =
    let row = new_provider u id user_id request in
    if is_found (get_provider_by_tax_id (strip request.tax_id) db)
    then (err tax_taken, db)
    else commit_provider refusal row (row ∷ db) db

-- `existing and existing.id != provider_id`
abbrev pub is_other : Uuid → Option PaymentProvider → Bool
is_other id none = false
is_other id (some existing) = not (existing.id == id)

abbrev pub tax_conflict : Uuid → Option (Option Text) → Providers → Bool
tax_conflict id (some (some tax_id)) db = is_other id (get_provider_by_tax_id (strip tax_id) db)
tax_conflict id _ db = false

abbrev pub is_null {ℓ} : {A : Type ℓ} → Option (Option A) → Bool
is_null (some none) = true
is_null _ = false

abbrev pub sent_or {ℓ} : {A : Type ℓ} → Option (Option A) → A → A
sent_or (some (some value)) old = value
sent_or _ old = old

abbrev pub sent_tax : Option (Option Text) → Text → Text
sent_tax (some (some tax_id)) old = strip tax_id
sent_tax _ old = old

abbrev pub sent_list : Option (Option (List Text)) → Option (List Text) → Option (List Text)
sent_list none old = old
sent_list (some value) old = value

abbrev pub is_sent {ℓ} : {A : Type ℓ} → Option A → Bool
is_sent none = false
is_sent (some value) = true

-- The row with the fields that were sent, none of them a null that its column refuses
abbrev pub changed_row : Unicode → Uuid → ProviderUpdate → PaymentProvider → PaymentProvider
changed_row u user_id request row =
    let legal = sent_or request.legal_name row.legal_name in
    let commercial = sent_or request.commercial_names row.commercial_names in
    record row {
      tax_id = sent_tax request.tax_id row.tax_id;
      legal_name = legal;
      commercial_names = commercial;
      emails_payments = sent_list request.emails_payments row.emails_payments;
      active = sent_or request.active row.active;
      normalized_names =
          (if is_sent request.legal_name || is_sent request.commercial_names
            then build_normalized_names u legal commercial
            else row.normalized_names);
      updated_by = some user_id;
    }

abbrev pub has_null : ProviderUpdate → Bool
has_null request = is_null request.tax_id || is_null request.legal_name || is_null request.active

-- A null list of names is unpacked, which raises; any other null is refused by its column.
unfoldable pub apply_update :
    Unicode
    → Refusal
    → Uuid
    → Uuid
    → ProviderUpdate
    → PaymentProvider
    → Exec Providers PaymentProvider
apply_update u refusal id user_id request row db =
    let new = changed_row u user_id request row in
    if is_null request.commercial_names
    then (err (type_error "Value after * must be an iterable, not NoneType"), db)
    else commit_provider (if has_null request then some none else refusal) new
        (replace_first (has_id id) new db) db

unfoldable pub update_provider :
    Unicode → Refusal → Uuid → Uuid → ProviderUpdate → Exec Providers PaymentProvider
update_provider u refusal id user_id request db = elim (find (has_id id) db) [
  | none ↦ (err (not_found "Proveedor no encontrado"), db)
  | some row ↦
      if tax_conflict id request.tax_id db
      then (err tax_taken, db)
      else apply_update u refusal id user_id request row db
]

unfoldable pub delete_provider : Uuid → Uuid → Exec Providers Bool
delete_provider id user_id db = elim (find (has_id id) db) [
  | none ↦ (err (not_found "Proveedor no encontrado"), db)
  | some row ↦ (
    ok true,
    replace_first (has_id id) (record row { active = false; updated_by = some user_id }) db,
  )
]

-- What users send, each with what the database says of the write; the id of a new row is new.
pub data ProviderRequest : Type 0 where
  create_request : Refusal → Uuid → Uuid → ProviderCreate → ProviderRequest
  update_request : Refusal → Uuid → Uuid → ProviderUpdate → ProviderRequest
  delete_request : Uuid → Uuid → ProviderRequest

abbrev pub serve_provider : Unicode → ProviderRequest → Providers → Providers
serve_provider u (create_request refusal id user_id request) db =
    (create_provider u refusal id user_id request db).1
serve_provider u (update_request refusal id user_id request) db =
    (update_provider u refusal id user_id request db).1
serve_provider u (delete_request id user_id) db = (delete_provider id user_id db).1
