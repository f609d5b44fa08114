-- ===== src/Payments/Groups.antt =====
-- `PaymentProviderProcessor` of app/api/finance/payment_provider/processor.py: the payments of one
-- supplier go together, by document, or else by name; each group has a total per currency.
pub mod Totals
pub mod Laws
pub mod Serialized
pub mod Cents
pub mod Conserves
use proyecto.Common.{
  ℕ, zero, suc, ◌+◌, ◌-◌, ◌*◌, ◌^◌, Bool, true, false, not, ◌&&◌, ◌||◌, Option, none, some, List,
  [], ◌∷◌, ◌++◌, map, ◌==◌, leb, if◌then◌else◌, any, find,
}
use proyecto.Common.Chars.{codes}
use proyecto.Payments.Text.{Text, Unicode, text_eq, clave_documento, clave_comparacion, is_some}
use proyecto.Payments.Quantize.{quantize, add_first}
use proyecto.Payments.Amounts.{Decimal, nonempty_text}
use proyecto.Payments.Data.{PaymentData, OperationData, is_set, or_value}
use proyecto.Payments.Filenames.{currency_symbol, build_pdf_filename}

-- A row of the suppliers
pub record Provider : Type 0 where
  pub id : ℕ
  pub tax_id : Option Text
  pub legal_name : Text
  pub normalized_names : List Text
  pub emails_payments : List Text

-- A receipt that was processed: it has an amount and a currency.
pub record Payment : Type 0 where
  pub archivo : Option Text
  pub destino : PaymentData
  pub operacion : OperationData
  pub monto : Decimal
  pub moneda : Text

-- `clave_documento(None)` and `clave_comparacion(None)` are empty.
abbrev pub key_of : (Text → Text) → Option Text → Text
key_of key none = []
key_of key (some t) = key t

abbrev pub has_tax_id : Unicode → Text → Provider → Bool
has_tax_id u clave provider = text_eq (key_of (clave_documento u) provider.tax_id) clave

abbrev pub find_by_taxid : Unicode → List Provider → Option Text → Option Provider
find_by_taxid u providers ruc =
    let clave = key_of (clave_documento u) ruc in
    if nonempty_text clave then find (has_tax_id u clave) providers else none

abbrev pub has_name : Unicode → Text → Provider → Bool
has_name u clave provider =
    any (λ nombre. text_eq (clave_comparacion u nombre) clave) provider.normalized_names

abbrev pub find_by_name : Unicode → List Provider → Option Text → Option Provider
find_by_name u providers titular =
    let clave = key_of (clave_comparacion u) titular in
    if nonempty_text clave then find (has_name u clave) providers else none

abbrev pub or_provider : Option Provider → Option Provider → Option Provider
or_provider none other = other
or_provider (some provider) other = some provider

unfoldable pub find_provider : Unicode → List Provider → Option Text → Option Text → Option Provider
find_provider u providers ruc titular =
    or_provider (find_by_taxid u providers ruc) (find_by_name u providers titular)

-- The texts "id:...", "ruc:..." and "name:..."
pub data GroupKey : Type 0 where
  by_id : ℕ → GroupKey
  by_ruc by_name : Text → GroupKey

abbrev pub key_eq : GroupKey → GroupKey → Bool
key_eq (by_id a) (by_id b) = a == b
key_eq (by_ruc a) (by_ruc b) = text_eq a b
key_eq (by_name a) (by_name b) = text_eq a b
key_eq _ _ = false

abbrev pub key_without : Unicode → Option Text → Option Text → GroupKey
key_without u ruc titular =
    if is_set ruc
    then by_ruc (key_of (clave_documento u) ruc)
    else by_name (key_of (clave_comparacion u) titular)

abbrev pub group_key : Unicode → Option Provider → Option Text → Option Text → GroupKey
group_key u none ruc titular = key_without u ruc titular
group_key u (some provider) ruc titular = by_id provider.id

-- Sums of decimals are exact up to 28 digits, and taken as exact here: the digits of both at the
-- longer of the two scales.
abbrev pub longer : ℕ → ℕ → ℕ
longer a b = if leb a b then b else a

abbrev pub at_scale : ℕ → Decimal → ℕ
at_scale places d = d.digits * 10 ^ (places - d.places)

unfoldable pub add : Decimal → Decimal → Decimal
add a b = record {
  digits = at_scale (longer a.places b.places) a + at_scale (longer a.places b.places) b;
  places = longer a.places b.places;
}

-- `totales.setdefault(currency, Decimal("0.00"))`, and `+= amount`
abbrev pub Totals : Type 0
Totals = List (Text × Decimal)

abbrev pub no_amount : Decimal
no_amount = record { digits = 0; places = 2 }

unfoldable pub add_total : Text → Decimal → Totals → Totals
add_total currency amount [] = (currency, add no_amount amount) ∷ []
add_total currency amount (t ∷ totals) =
    let later = add_total currency amount totals in
    if text_eq t.0 currency then (t.0, add t.1 amount) ∷ totals else t ∷ later

-- `_build_payment_item`, with the name of its file
pub record PaymentItem : Type 0 where
  pub payment : Payment
  pub moneda_simbolo : Text
  pub suggested_filename : Text

abbrev pub payment_item : Unicode → Text → Payment → PaymentItem
payment_item u display_name p = record {
  payment = p;
  moneda_simbolo = currency_symbol (some p.moneda);
  suggested_filename =
      build_pdf_filename u (or_value p.destino.titular (some display_name))
        (or_value p.operacion.fecha_proceso p.operacion.fecha_envio);
}

pub record Group : Type 0 where
  pub provider_id : Option ℕ
  pub provider_tax_id : Option Text
  pub proveedor : Text
  pub titular_pdf : Option Text
  pub identificado : Bool
  pub emails_payments : List Text
  pub cantidad_pagos : ℕ
  pub archivos : List (Option Text)
  pub totales : Totals
  pub pagos : List PaymentItem

abbrev pub text_or : Option Text → Text → Text
text_or none other = other
text_or (some []) other = other
text_or (some (c ∷ t)) other = c ∷ t

abbrev pub display_name : Option Provider → Payment → Text
display_name none p = text_or (or_value p.destino.titular p.destino.ruc) (codes "SIN IDENTIFICAR")
display_name (some provider) p = provider.legal_name

abbrev pub provider_id_of : Option Provider → Option ℕ
provider_id_of none = none
provider_id_of (some provider) = some provider.id

abbrev pub tax_id_of : Option Provider → Option Text → Option Text
tax_id_of none ruc = ruc
tax_id_of (some provider) ruc = provider.tax_id

abbrev pub emails_of : Option Provider → List Text
emails_of none = []
emails_of (some provider) = provider.emails_payments

abbrev pub new_group : Option Provider → Payment → Group
new_group provider p = record {
  provider_id = provider_id_of provider;
  provider_tax_id = tax_id_of provider p.destino.ruc;
  proveedor = display_name provider p;
  titular_pdf = or_value p.destino.titular p.destino.ruc;
  identificado = is_some provider;
  emails_payments = emails_of provider;
  cantidad_pagos = 0;
  archivos = [];
  totales = [];
  pagos = [];
}

abbrev pub with_payment : PaymentItem → Payment → Group → Group
with_payment item p g = record g {
  totales = add_total p.moneda p.monto g.totales;
  cantidad_pagos = g.cantidad_pagos + 1;
  archivos = g.archivos ++ (p.archivo ∷ []);
  pagos = g.pagos ++ (item ∷ []);
}

-- The dictionary of the groups, in the order in which their keys came
abbrev pub Groups : Type 0
Groups = List (GroupKey × Group)

unfoldable pub put_payment : GroupKey → Group → PaymentItem → Payment → Groups → Groups
put_payment key fresh item p [] = (key, with_payment item p fresh) ∷ []
put_payment key fresh item p (g ∷ groups) =
    let later = put_payment key fresh item p groups in
    if key_eq g.0 key then (g.0, with_payment item p g.1) ∷ groups else g ∷ later

abbrev pub provider_of : Unicode → List Provider → Payment → Option Provider
provider_of u providers p = find_provider u providers p.destino.ruc p.destino.titular

abbrev pub add_payment : Unicode → List Provider → Payment → Groups → Groups
add_payment u providers p groups =
    let provider = provider_of u providers p in
    put_payment (group_key u provider p.destino.ruc p.destino.titular) (new_group provider p)
      (payment_item u (display_name provider p) p) p groups

-- The loop over the payments
unfoldable pub group_from : Unicode → List Provider → Groups → List Payment → Groups
group_from u providers groups [] = groups
group_from u providers groups (p ∷ payments) =
    group_from u providers (add_payment u providers p groups) payments

pub data GroupStatus : Type 0 where
  missing_provider missing_payment_email ready : GroupStatus

-- `_serialize_group`: the status of a group
abbrev pub has_mail : List Text → GroupStatus
has_mail [] = missing_payment_email
has_mail (mail ∷ mails) = ready

unfoldable pub group_status : Group → GroupStatus
group_status g = if not g.identificado then missing_provider else has_mail g.emails_payments

pub record SerializedGroup : Type 0 where
  pub group : Group
  pub status : GroupStatus

abbrev pub quantized_total : Text → Option Decimal → Option (Text × Decimal)
quantized_total currency none = none
quantized_total currency (some total) = some (currency, total)

abbrev pub quantized_totals : Totals → Option Totals
quantized_totals [] = some []
quantized_totals (t ∷ totals) =
    add_first (quantized_total t.0 (quantize t.1)) (quantized_totals totals)

-- The item of a payment with this amount
abbrev pub with_monto : Decimal → PaymentItem → PaymentItem
with_monto monto item = record item { payment = record item.payment { monto = monto } }

abbrev pub quantized_item : PaymentItem → Option Decimal → Option PaymentItem
quantized_item item none = none
quantized_item item (some monto) = some (with_monto monto item)

abbrev pub quantized_items : List PaymentItem → Option (List PaymentItem)
quantized_items [] = some []
quantized_items (item ∷ items) =
    add_first (quantized_item item (quantize item.payment.monto)) (quantized_items items)

abbrev pub serialized_with :
    Group → Option Totals → Option (List PaymentItem) → Option SerializedGroup
serialized_with g (some totales) (some pagos) =
    some (record { group = record g { totales = totales; pagos = pagos }; status = group_status g })
serialized_with g _ _ = none

-- `_serialize_group`: the totals and the amounts rounded to two decimals; none where that raises. What
-- is left of it is the writing as text.
unfoldable pub serialize_group : GroupKey × Group → Option SerializedGroup
serialize_group g = serialized_with g.1 (quantized_totals g.1.totales) (quantized_items g.1.pagos)

unfoldable pub serialize_all : Groups → Option (List SerializedGroup)
serialize_all [] = some []
serialize_all (g ∷ groups) = add_first (serialize_group g) (serialize_all groups)

unfoldable pub group : Unicode → List Provider → List Payment → Option (List SerializedGroup)
group u providers payments = serialize_all (group_from u providers [] payments)
