-- ===== src/Payments/Data.antt =====
-- What the parser of app/api/finance/payment_provider/pdf_parser.py reads from a receipt, and its `or`: the
-- first value that is a text with characters, or else the last one.
use proyecto.Common.{Bool, true, false, Option, none, some, List, [], ◌∷◌}
use proyecto.Payments.Text.{Text, Unicode}
use proyecto.Payments.Amounts.{Decimal, MontoInfo}
use proyecto.Payments.Fields.{obtener_valor}

pub data SourceSection : Type 0 where
  consulta_operaciones destination_account transfer service_payment : SourceSection

-- The dictionary `datos_destino`; a key that is missing is `none`.
pub record PaymentData : Type 0 where
  pub monto_texto : Option Text
  pub monto_decimal : Option Decimal
  pub moneda : Option Text
  pub moneda_original : Option Text
  pub titular : Option Text
  pub cuenta : Option Text
  pub tipo : Option Text
  pub referencia : Option Text
  pub ruc : Option Text
  pub source_section : Option SourceSection

-- `{}`
abbrev pub no_data : PaymentData
no_data = record {
  monto_texto = none;
  monto_decimal = none;
  moneda = none;
  moneda_original = none;
  titular = none;
  cuenta = none;
  tipo = none;
  referencia = none;
  ruc = none;
  source_section = none;
}

pub record OperationData : Type 0 where
  pub fecha_envio : Option Text
  pub estado : Option Text
  pub tipo_operacion : Option Text
  pub fecha_proceso : Option Text
  pub numero_operacion : Option Text

-- `bool(value)`
abbrev pub is_set : Option Text → Bool
is_set none = false
is_set (some []) = false
is_set (some (c ∷ t)) = true

abbrev pub or_value : Option Text → Option Text → Option Text
or_value none other = other
or_value (some []) other = other
or_value (some (c ∷ t)) other = some (c ∷ t)

-- `obtener_valor(seccion, a) or obtener_valor(seccion, b) or ... or other`
abbrev pub any_value : Unicode → Text → List Text → Option Text → Option Text
any_value u seccion [] other = other
any_value u seccion (campo ∷ campos) other =
    or_value (obtener_valor u seccion campo) (any_value u seccion campos other)

-- The four fields of an amount: what was read, or the text that could not be
abbrev pub with_amount : Option MontoInfo → Option Text → PaymentData → PaymentData
with_amount none original data_ = record data_ { monto_texto = original }
with_amount (some info) original data_ = record data_ {
  monto_texto = some info.texto;
  monto_decimal = some info.monto;
  moneda = some info.moneda;
  moneda_original = some info.moneda_original;
}

abbrev pub amount_of : (Text → Option MontoInfo) → Option Text → Option MontoInfo
amount_of extract none = none
amount_of extract (some valor) = extract valor
