-- ===== src/Payments/Parser/Laws.antt =====
-- When a receipt is processed, and what its result then has.
use proyecto.Common.{
  ◌≡◌, ◌⊎◌, refl, sym, ◌∙◌, Bool, true, false, not, ◌&&◌, ◌||◌, none, some, List, [], ◌∷◌, arith,
  inl, inr, any,
}
use mathlib.Core.Path.{subst}
use proyecto.Payments.Text.{Text, Unicode, is_some}
use proyecto.Payments.Data.{PaymentData, OperationData, is_set}
use proyecto.Payments.Sections.{extract_destination_data, extract_operation_data}
use proyecto.Payments.Parser.{
  has_minimum_payment_data, first_complete, attempts, extract_payment_data, missing_if,
  missing_fields, Step, value, failure, validated, validate_extracted_data, UploadFile, Reading,
  Settings, validate_file, extract_pdf_text, ParseResult, processed, parse_text, parse_valid, parse,
}

abbrev pub is_value : {A : Type 0} → Step A → Bool
is_value (value a) = true
is_value (failure e) = false

validated-test :
    (p q r t : Text) (a b c d e : Bool)
    → is_value (
        validated (
          missing_if
            (not a && not b)
            p
            (missing_if (not c) q (missing_if (not d) r (missing_if (not e) t [])))))
      ≡ ((a || b) && c && d && e)
validated-test p q r t a b c d e = ground arith

pub validate-has_minimum :
    (data_ : PaymentData)
    → is_value (validate_extracted_data data_) ≡ has_minimum_payment_data data_
unfolding validate_extracted_data has_minimum_payment_data missing_fields
validate-has_minimum data_ =
    validated-test _ _ _ _ (is_set data_.titular) (is_set data_.ruc) (is_set data_.monto_texto)
      (is_some data_.monto_decimal) (is_set data_.moneda)

first_complete-any :
    (kinds : List PaymentData) (fallback : PaymentData)
    → has_minimum_payment_data (first_complete kinds fallback)
      ≡ (any has_minimum_payment_data kinds || has_minimum_payment_data fallback)
first_complete-any [] fallback = refl
first_complete-any (data_ ∷ kinds) fallback = ground (arith, first_complete-any kinds fallback)

extract_payment_data-any :
    (u : Unicode) (contenido : Text)
    → has_minimum_payment_data (extract_payment_data u contenido)
      ≡ any has_minimum_payment_data (attempts u contenido)
unfolding extract_payment_data
extract_payment_data-any u contenido =
    ground (arith, first_complete-any (attempts u contenido) (extract_destination_data u contenido))

-- What a result says when the receipt was processed, and when it was not
abbrev pub IsResult : Unicode → Step (Unit {0}) → Step Text → ParseResult → Type 0
IsResult u valid read result =
    ((result.procesado ≡ true)
      × (is_value valid ≡ true)
      × (contenido : Text) × (data_ : PaymentData) × (read ≡ value contenido)
      × (any has_minimum_payment_data (attempts u contenido) ≡ true)
      × (result.datos_destino ≡ some data_)
      × (has_minimum_payment_data data_ ≡ true)
      × (result.error ≡ none))
    ⊎ ((result.procesado ≡ false)
        × ((contenido : Text)
            → is_value valid ≡ true
            → read ≡ value contenido
            → any has_minimum_payment_data (attempts u contenido) ≡ false)
        × (result.datos_destino ≡ none)
        × (e : Text) × (result.error ≡ some e))

value_inj : (a b : Text) → value a ≡ value b → a ≡ b
value_inj a b e = cc

processed-IsResult :
    (u : Unicode) (file : UploadFile) (contenido : Text) (operation : OperationData)
    (data_ : PaymentData) (check : Step (Unit {0}))
    → is_value check ≡ has_minimum_payment_data data_
    → has_minimum_payment_data data_ ≡ any has_minimum_payment_data (attempts u contenido)
    → IsResult u (value tt) (value contenido) (processed file operation data_ check)
processed-IsResult u file contenido operation data_ (value _) e a =
    inl (refl, refl, contenido, data_, refl, sym a ∙ sym e, refl, sym e, refl)
processed-IsResult u file contenido operation data_ (failure text) e a = inr (
  refl,
  λ other v r.
      subst (λ t. any has_minimum_payment_data (attempts u t) ≡ false) (value_inj contenido other r)
        (sym a ∙ sym e),
  refl,
  text,
  refl,
)

parse_text-IsResult :
    (u : Unicode) (file : UploadFile) (read : Step Text)
    → IsResult u (value tt) read (parse_text u file read)
parse_text-IsResult u file (failure e) = inr (refl, λ contenido v r. absurd (cc), refl, e, refl)
parse_text-IsResult u file (value contenido) =
    processed-IsResult u file contenido (extract_operation_data u contenido)
      (extract_payment_data u contenido)
      (validate_extracted_data (extract_payment_data u contenido))
      (validate-has_minimum (extract_payment_data u contenido))
      (extract_payment_data-any u contenido)

parse_valid-IsResult :
    (u : Unicode) (s : Settings) (file : UploadFile) (r : Reading) (valid : Step (Unit {0}))
    → IsResult u valid (extract_pdf_text s r) (parse_valid u s file r valid)
parse_valid-IsResult u s file r (failure e) =
    inr (refl, λ contenido v q. absurd (cc), refl, e, refl)
parse_valid-IsResult u s file r (value _) = parse_text-IsResult u file (extract_pdf_text s r)

-- A receipt is processed exactly if it is a PDF, its text can be read, and one of the six kinds of
-- receipt gives a payee, by name or document, with an amount and its currency. Then the result has
-- such data and no error; otherwise it has an error and no data.
pub parse-IsResult :
    (u : Unicode) (s : Settings) (file : UploadFile) (r : Reading)
    → IsResult u (validate_file file) (extract_pdf_text s r) (parse u s file r)
unfolding parse
parse-IsResult u s file r = parse_valid-IsResult u s file r (validate_file file)
