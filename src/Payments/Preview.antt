-- ===== src/Payments/Preview.antt =====
-- `preview_files` of `PaymentProviderService`: the files are read and their payments grouped
-- (app/api/finance/payment_provider/payment_provider_service.py).
pub mod Laws
pub mod Receipts
pub mod Active
use proyecto.Common.{
  ℕ, ◌+◌, Bool, true, false, not, ◌&&◌, Option, none, some, List, [], ◌∷◌, map, ◌==◌, length, count,
  select,
}
use proyecto.Payments.Text.{Text, Unicode}
use proyecto.Payments.Amounts.{Decimal}
use proyecto.Payments.Quantize.{add_first}
use proyecto.Payments.Data.{PaymentData, OperationData}
use proyecto.Payments.Parser.{UploadFile, Reading, Settings, ParseResult, parse}
use proyecto.Payments.Groups.{
  Provider, Payment, GroupStatus, missing_provider, missing_payment_email, ready, SerializedGroup,
  group,
}
use proyecto.Payments.Providers.{PaymentProvider, Providers, provider_row, list_active_providers}

-- A file, and what the libraries read in it
pub record Upload : Type 0 where
  pub file : UploadFile
  pub reading : Reading

-- What `group` takes from a result: without an amount and a currency it would raise.
abbrev pub with_amount :
    Option Text → OperationData → PaymentData → Option Decimal → Option Text → Option Payment
with_amount archivo operacion destino (some monto) (some moneda) = some (record {
  archivo = archivo;
  destino = destino;
  operacion = operacion;
  monto = monto;
  moneda = moneda;
})
with_amount archivo operacion destino _ _ = none

abbrev pub payment_from : Option Text → Option OperationData → Option PaymentData → Option Payment
payment_from archivo (some operacion) (some destino) =
    with_amount archivo operacion destino destino.monto_decimal destino.moneda
payment_from archivo _ _ = none

abbrev pub payment_of : ParseResult → Option Payment
payment_of result = payment_from result.archivo result.datos_operacion result.datos_destino

abbrev pub payments_of : List ParseResult → Option (List Payment)
payments_of [] = some []
payments_of (result ∷ results) = add_first (payment_of result) (payments_of results)

pub record Preview : Type 0 where
  pub ready_to_send : Bool
  pub total_archivos : ℕ
  pub total_procesados : ℕ
  pub total_errores : ℕ
  pub total_proveedores : ℕ
  pub missing_provider_count : ℕ
  pub missing_email_count : ℕ
  pub proveedores : List SerializedGroup
  pub errores : List ParseResult

abbrev pub lacks_provider : SerializedGroup → Bool
lacks_provider g = elim g.status [ missing_provider ↦ true | _ ↦ false ]

abbrev pub lacks_email : SerializedGroup → Bool
lacks_email g = elim g.status [ missing_payment_email ↦ true | _ ↦ false ]

abbrev pub is_processed : ParseResult → Bool
is_processed result = result.procesado

abbrev pub is_error : ParseResult → Bool
is_error result = not result.procesado

-- The answer, from the results and the groups
abbrev pub preview_of : List ParseResult → List SerializedGroup → Preview
preview_of results grouped = record {
  ready_to_send =
      length (select is_error results) == 0
      && count lacks_provider grouped == 0
      && count lacks_email grouped == 0;
  total_archivos = length results;
  total_procesados = length (select is_processed results);
  total_errores = length (select is_error results);
  total_proveedores = length grouped;
  missing_provider_count = count lacks_provider grouped;
  missing_email_count = count lacks_email grouped;
  proveedores = grouped;
  errores = select is_error results;
}

abbrev pub parse_all : Unicode → Settings → List Upload → List ParseResult
parse_all u settings files = map (λ f. parse u settings f.file f.reading) files

abbrev pub preview_from : List ParseResult → Option (List SerializedGroup) → Option Preview
preview_from results none = none
preview_from results (some grouped) = some (preview_of results grouped)

abbrev pub grouped_preview :
    Unicode → List Provider → List ParseResult → Option (List Payment) → Option Preview
grouped_preview u providers results none = none
grouped_preview u providers results (some payments) =
    preview_from results (group u providers payments)

-- None where `group` would raise
unfoldable pub preview_files : Unicode → Settings → Providers → List Upload → Option Preview
preview_files u settings db files =
    let results = parse_all u settings files in
    grouped_preview u (map provider_row (list_active_providers db)) results
      (payments_of (select is_processed results))
