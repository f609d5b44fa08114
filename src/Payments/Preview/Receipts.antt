-- ===== src/Payments/Preview/Receipts.antt =====
-- The results of the files and the payments that come of them.
use proyecto.Common.{
  ◌≡◌, refl, sym, ℕ, Bool, ◌+◌, ◌≤◌, true, Option, some, List, [], ◌∷◌, arith, length, count,
  select, All, Bool-cases, Option-cases, inl, inr,
}
use proyecto.Common.Counting.{All-imp}
use proyecto.Payments.Text.{Text, Unicode}
use proyecto.Payments.Data.{PaymentData, OperationData}
use proyecto.Payments.Parser.{
  has_minimum_payment_data, validate_extracted_data, Step, value, failure, UploadFile, Settings,
  Reading, ParseResult, processed, parse_text, parse_valid, parse, validate_file, extract_pdf_text,
}
use proyecto.Payments.Sections.{extract_operation_data}
use proyecto.Payments.Parser.{extract_payment_data}
use proyecto.Payments.Parser.Laws.{validate-has_minimum, is_value}
use proyecto.Payments.Groups.{Provider, Payment, group_from}
use proyecto.Payments.Groups.Laws.{FitsPayment, group_from-adds}
use proyecto.Payments.Groups.Serialized.{has_file, counted}
use proyecto.Payments.Preview.{
  Upload, payment_from, payment_of, payments_of, is_processed, is_error, parse_all,
}

-- A result that was processed has a payment.
abbrev pub HasPayment : ParseResult → Type 0
HasPayment result =
    result.procesado ≡ true
    → (p : Payment) × (payment_of result ≡ some p) × (p.archivo ≡ result.archivo)

pub minimum-with_amount :
    (archivo : Option Text) (operacion : OperationData) (data_ : PaymentData)
    → has_minimum_payment_data data_ ≡ true
    → (p : Payment) × (payment_from archivo (some operacion) (some data_) ≡ some p)
      × (p.archivo ≡ archivo)
unfolding has_minimum_payment_data
minimum-with_amount archivo operacion data_ h = elim (Option-cases data_.monto_decimal) [
  | inl none_ ↦ absurd (ground (arith, h, none_))
  | inr (monto, m) ↦ elim (Option-cases data_.moneda) [
    | inl none_ ↦ absurd (ground (arith, h, none_))
    | inr (moneda, c) ↦ (
      record {
        archivo = archivo;
        destino = data_;
        operacion = operacion;
        monto = monto;
        moneda = moneda;
      },
      rw (m, c) refl,
      refl,
    )
  ]
]

pub processed-HasPayment :
    (file : UploadFile) (operacion : OperationData) (data_ : PaymentData) (check : Step (Unit {0}))
    → is_value check ≡ has_minimum_payment_data data_
    → HasPayment (processed file operacion data_ check)
processed-HasPayment file operacion data_ (failure e) h = λ no_. absurd (cc)
processed-HasPayment file operacion data_ (value _) h =
    λ _. minimum-with_amount file.filename operacion data_ (sym h)

pub parse_text-HasPayment :
    (u : Unicode) (file : UploadFile) (read : Step Text) → HasPayment (parse_text u file read)
parse_text-HasPayment u file (failure e) = λ no_. absurd (cc)
parse_text-HasPayment u file (value contenido) =
    processed-HasPayment file (extract_operation_data u contenido)
      (extract_payment_data u contenido)
      (validate_extracted_data (extract_payment_data u contenido))
      (validate-has_minimum (extract_payment_data u contenido))

pub parse_valid-HasPayment :
    (u : Unicode) (s : Settings) (file : UploadFile) (r : Reading) (valid : Step (Unit {0}))
    → HasPayment (parse_valid u s file r valid)
parse_valid-HasPayment u s file r (failure e) = λ no_. absurd (cc)
parse_valid-HasPayment u s file r (value _) = parse_text-HasPayment u file (extract_pdf_text s r)

pub parse-HasPayment :
    (u : Unicode) (s : Settings) (file : UploadFile) (r : Reading) → HasPayment (parse u s file r)
unfolding parse
parse-HasPayment u s file r = parse_valid-HasPayment u s file r (validate_file file)

pub parse_all-HasPayment :
    (u : Unicode) (s : Settings) (files : List Upload) → All HasPayment (parse_all u s files)
parse_all-HasPayment u s [] = tt
parse_all-HasPayment u s (f ∷ files) =
    (parse-HasPayment u s f.file f.reading, parse_all-HasPayment u s files)

-- How many results have a file that a test accepts
abbrev pub file_count : (Option Text → Bool) → List ParseResult → ℕ
file_count test results = count (λ r. test r.archivo) results

pub payments_found :
    (results : List ParseResult)
    → All HasPayment results
    → (payments : List Payment) × (payments_of (select is_processed results) ≡ some payments)
      × (length payments ≡ length (select is_processed results))
      × ((test : Option Text → Bool)
          → count (has_file test) payments ≡ file_count test (select is_processed results))
payments_found [] h = ([], refl, refl, λ test. refl)
payments_found (result ∷ results) h =
    let (payments, e, same, files) = payments_found results h.1 in
    elim (Bool-cases result.procesado) [
      | inr failed_ ↦ (payments, rw failed_ e, rw failed_ same, λ test. rw failed_ (files test))
      | inl done ↦
          let (p, found, of_file) = h.0 done in
          (
            p ∷ payments,
            rw done (rw (found, e) refl),
            rw done (omega (arith, same)),
            λ test. rw done (rw of_file (omega (arith, files test))),
          )
    ]

-- Some scale has all decimals of the payments.
pub scale_of : (payments : List Payment) → (k : ℕ) × (2 ≤ k) × All (FitsPayment k) payments
scale_of [] = (2, omega arith, tt)
scale_of (p ∷ payments) =
    let (k, wide, fits) = scale_of payments in
    (
      k + p.monto.places,
      omega (arith, wide),
      (
        omega arith,
        All-imp (FitsPayment k) (FitsPayment (k + p.monto.places)) payments
            (λ q f. omega (arith, f)) fits,
      ),
    )

pub counted-group_from :
    (u : Unicode) (providers : List Provider) (payments : List Payment)
    → counted (group_from u providers [] payments) ≡ length payments
counted-group_from u providers payments =
    let (k, wide, fits) = scale_of payments in
    omega (arith, (group_from-adds k wide [] u providers [] payments fits tt).1)

pub split_length :
    (results : List ParseResult)
    → length results ≡ length (select is_processed results) + length (select is_error results)
split_length [] = omega arith
split_length (result ∷ results) = ground (arith, split_length results)
