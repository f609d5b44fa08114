-- ===== src/Payments/Parser.antt =====
-- `PaymentPdfParser.parse` of app/api/finance/payment_provider/pdf_parser.py: which kind of receipt is
-- read, what must be there, and the result. The text of a PDF, read or recognised by OCR, is what the
-- libraries give (`Reading`); an error they raise is its text.
pub mod Laws
use proyecto.Common.{
  ℕ, Bool, true, false, not, ◌&&◌, ◌||◌, Option, none, some, List, [], ◌∷◌, ◌++◌, leb,
  if◌then◌else◌, length, map, drop, ◌-◌, ◌+◌,
}
use proyecto.Common.Chars.{codes}
use proyecto.Payments.Text.{Text, Unicode, upper, strip, text_eq, is_some}
use proyecto.Payments.Data.{PaymentData, OperationData, is_set}
use proyecto.Payments.Consulta.{extract_consulta_operaciones_data}
use proyecto.Payments.Sections.{
  extract_destination_data, extract_transfer_data, extract_service_payment_data,
  extract_banco_beneficiario_data, extract_beneficiario_data, extract_operation_data,
}

unfoldable pub has_minimum_payment_data : PaymentData → Bool
has_minimum_payment_data data_ =
    (is_set data_.titular || is_set data_.ruc)
    && is_set data_.monto_texto
    && is_some data_.monto_decimal
    && is_set data_.moneda

-- The first of these that has the minimum, or else the last argument
abbrev pub first_complete : List PaymentData → PaymentData → PaymentData
first_complete [] fallback = fallback
first_complete (data_ ∷ more) fallback =
    let later = first_complete more fallback in
    if has_minimum_payment_data data_ then data_ else later

-- The kinds of receipt, in the order in which they are tried
abbrev pub attempts : Unicode → Text → List PaymentData
attempts u contenido =
    extract_consulta_operaciones_data u contenido
    ∷ extract_destination_data u contenido
    ∷ extract_transfer_data u contenido
    ∷ extract_service_payment_data u contenido
    ∷ extract_beneficiario_data u contenido
    ∷ extract_banco_beneficiario_data u contenido
    ∷ []

unfoldable pub extract_payment_data : Unicode → Text → PaymentData
extract_payment_data u contenido =
    first_complete (attempts u contenido) (extract_destination_data u contenido)

abbrev pub missing_if : Bool → Text → List Text → List Text
missing_if true campo rest = campo ∷ rest
missing_if false campo rest = rest

-- `campos_faltantes`
unfoldable pub missing_fields : PaymentData → List Text
missing_fields data_ =
    missing_if (not (is_set data_.titular) && not (is_set data_.ruc)) (codes "titular o documento")
      (missing_if (not (is_set data_.monto_texto)) (codes "monto") (
        missing_if (not (is_some data_.monto_decimal)) (codes "monto valido")
          (missing_if (not (is_set data_.moneda)) (codes "moneda") [])))

-- What a step of the parser gives: its value, or the text of the error that it raises
pub data Step (A : Type 0) : Type 0 where
  value : A → Step A
  failure : Text → Step A

-- `", ".join(campos_faltantes)`
abbrev pub joined : List Text → Text
joined [] = []
joined (campo ∷ []) = campo
joined (campo ∷ next ∷ more) = campo ++ (codes ", " ++ joined (next ∷ more))

abbrev pub missing_text : List Text → Text
missing_text campos =
    codes "No se encontraron o no se pudieron interpretar los campos: " ++ joined campos

abbrev pub validated : List Text → Step (Unit {0})
validated [] = value tt
validated (campo ∷ campos) = failure (missing_text (campo ∷ campos))

unfoldable pub validate_extracted_data : PaymentData → Step (Unit {0})
validate_extracted_data data_ = validated (missing_fields data_)

-- The file as the server got it: `lower()` of its name and type is that of ASCII here.
pub record UploadFile : Type 0 where
  pub filename : Option Text
  pub content_type : Option Text

-- What the libraries make of the file: the text in it, and the text in its pictures
pub record Reading : Type 0 where
  pub plumber : Step Text
  pub ocr : Step Text

pub record Settings : Type 0 where
  pub enable_ocr : Bool
  pub min_text_length : ℕ

abbrev pub lower : ℕ → ℕ
lower c = if leb 65 c && leb c 90 then c + 32 else c

abbrev pub lower_text : Option Text → Text
lower_text none = []
lower_text (some t) = map lower t

abbrev pub ends_with : Text → Text → Bool
ends_with part t = text_eq part (drop (length t - length part) t)

unfoldable pub validate_file : UploadFile → Step (Unit {0})
validate_file file =
    if not (text_eq (lower_text file.content_type) (codes "application/pdf"))
      && not (ends_with (codes ".pdf") (lower_text file.filename))
    then failure (codes "El archivo no es un PDF")
    else value tt

abbrev pub has_enough_text : Settings → Text → Bool
has_enough_text s [] = false
has_enough_text s (c ∷ t) = leb s.min_text_length (length (strip (c ∷ t)))

abbrev pub unreadable : Step Text
unreadable = failure (
    codes "No se pudo extraer texto del PDF. Es posible que sea un documento escaneado o ilegible.")

abbrev pub text_by_ocr : Settings → Step Text → Step Text
text_by_ocr s (failure e) = failure e
text_by_ocr s (value contenido) =
    if has_enough_text s contenido then value contenido else unreadable

abbrev pub text_of : Settings → Step Text → Step Text → Step Text
text_of s (failure e) ocr = failure e
text_of s (value contenido) ocr =
    if has_enough_text s contenido
    then value contenido
    else if s.enable_ocr
    then text_by_ocr s ocr
    else unreadable

-- `_extract_pdf_text`
unfoldable pub extract_pdf_text : Settings → Reading → Step Text
extract_pdf_text s r = text_of s r.plumber r.ocr

pub record ParseResult : Type 0 where
  pub archivo : Option Text
  pub procesado : Bool
  pub error : Option Text
  pub datos_operacion : Option OperationData
  pub datos_destino : Option PaymentData

abbrev pub failed : UploadFile → Text → ParseResult
failed file e = record {
  archivo = file.filename;
  procesado = false;
  error = some e;
  datos_operacion = none;
  datos_destino = none;
}

abbrev pub processed : UploadFile → OperationData → PaymentData → Step (Unit {0}) → ParseResult
processed file operation data_ (failure e) = failed file e
processed file operation data_ (value _) = record {
  archivo = file.filename;
  procesado = true;
  error = none;
  datos_operacion = some operation;
  datos_destino = some data_;
}

abbrev pub parse_text : Unicode → UploadFile → Step Text → ParseResult
parse_text u file (failure e) = failed file e
parse_text u file (value contenido) =
    processed file (extract_operation_data u contenido) (extract_payment_data u contenido)
      (validate_extracted_data (extract_payment_data u contenido))

abbrev pub parse_valid : Unicode → Settings → UploadFile → Reading → Step (Unit {0}) → ParseResult
parse_valid u s file r (failure e) = failed file e
parse_valid u s file r (value _) = parse_text u file (extract_pdf_text s r)

unfoldable pub parse : Unicode → Settings → UploadFile → Reading → ParseResult
parse u s file r = parse_valid u s file r (validate_file file)
