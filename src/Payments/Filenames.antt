-- ===== src/Payments/Filenames.antt =====
-- The names of the files that go out with a payment: the functions at the end of
-- app/api/finance/payment_provider/processor.py.
use proyecto.Common.{
  ℕ, zero, suc, ◌+◌, ◌-◌, ◌*◌, ◌/◌, ◌%◌, Bool, true, false, ◌&&◌, ◌||◌, Option, none, some, List,
  [], ◌∷◌, ◌++◌, ◌==◌, leb, if◌then◌else◌,
}
use proyecto.Common.Chars.{codes}
use proyecto.Payments.Text.{Text, Unicode, normalizar_texto, is_upper, is_digit, text_eq}
use proyecto.Payments.Columns.{ends_date}
use proyecto.Payments.Consulta.{is_dash}

abbrev pub month_names : List Text
month_names =
    codes "ENERO"
    ∷ codes "FEBRERO"
    ∷ codes "MARZO"
    ∷ codes "ABRIL"
    ∷ codes "MAYO"
    ∷ codes "JUNIO"
    ∷ codes "JULIO"
    ∷ codes "AGOSTO"
    ∷ codes "SETIEMBRE"
    ∷ codes "OCTUBRE"
    ∷ codes "NOVIEMBRE"
    ∷ codes "DICIEMBRE"
    ∷ []

-- `CURRENCY_SYMBOLS.get(currency_code, currency_code)`
unfoldable pub currency_symbol : Option Text → Text
currency_symbol none = []
currency_symbol (some code) =
    if text_eq code (codes "PEN")
    then codes "S/"
    else if text_eq code (codes "USD")
    then codes "US$"
    else code

-- A run of other characters, or of underscores, becomes one underscore; none is left at the end.
abbrev pub is_name_char : ℕ → Bool
is_name_char c = is_upper c || is_digit c || c == 46

abbrev pub underscore_if : Bool → Text → Text
underscore_if true t = 95 ∷ t
underscore_if false t = t

abbrev pub joined_from : Bool → Text → Text
joined_from pending [] = underscore_if pending []
joined_from pending (c ∷ t) =
    let other = joined_from true t in
    let plain = joined_from false t in
    if is_name_char c then underscore_if pending (c ∷ plain) else other

-- `.rstrip("._-")`
abbrev pub is_mark : ℕ → Bool
is_mark c = c == 46 || c == 95 || c == 45

abbrev pub keep_unless_mark : ℕ → Text → Text
keep_unless_mark c [] = if is_mark c then [] else c ∷ []
keep_unless_mark c (d ∷ t) = c ∷ d ∷ t

abbrev pub drop_last_marks : Text → Text
drop_last_marks [] = []
drop_last_marks (c ∷ t) = keep_unless_mark c (drop_last_marks t)

abbrev pub or_text : Text → Text → Text
or_text [] other = other
or_text (c ∷ t) other = c ∷ t

unfoldable pub sanitize_filename_part : Unicode → Text → Text
sanitize_filename_part u value =
    or_text (drop_last_marks (joined_from false (normalizar_texto u value))) (codes "PROVEEDOR")

-- Day and month
pub record PdfDate : Type 0 where
  pub day : ℕ
  pub month : ℕ

abbrev pub digit : ℕ → ℕ
digit c = c - 48

-- `\d{1,2}[/-]` and what must follow it: two digits are tried before one.
abbrev pub or_date : Option PdfDate → Option PdfDate → Option PdfDate
or_date none later = later
or_date (some found) later = some found

abbrev pub with_number : (ℕ → Text → Option PdfDate) → Text → Option PdfDate
with_number rest (a ∷ b ∷ []) = none
with_number rest (a ∷ b ∷ c ∷ t) =
    or_date
      (if is_digit a && is_digit b && is_dash c then rest (digit a * 10 + digit b) t else none)
      (if is_digit a && is_dash b then rest (digit a) (c ∷ t) else none)
with_number rest _ = none

abbrev pub year_after : ℕ → ℕ → Text → Option PdfDate
year_after day month t = if ends_date t then some (record { day = day; month = month }) else none

abbrev pub month_after : ℕ → Text → Option PdfDate
month_after day t = with_number (year_after day) t

abbrev pub first_pdf_date : Text → Option PdfDate
first_pdf_date [] = none
first_pdf_date (c ∷ t) = or_date (with_number month_after (c ∷ t)) (first_pdf_date t)

abbrev pub valid_date : Option PdfDate → Option PdfDate
valid_date none = none
valid_date (some d) =
    if leb 1 d.day && leb d.day 31 && leb 1 d.month && leb d.month 12 then some d else none

unfoldable pub parse_pdf_date : Option Text → Option PdfDate
parse_pdf_date none = none
parse_pdf_date (some value) = valid_date (first_pdf_date value)

abbrev pub nth_month : ℕ → List Text → Text
nth_month n [] = []
nth_month zero (m ∷ months) = m
nth_month (suc n) (m ∷ months) = nth_month n months

-- `f"{month}_{parsed['day']:02d}"`; a day has two digits at most.
abbrev pub date_label : Option PdfDate → Text
date_label none = codes "SIN_FECHA"
date_label (some d) =
    nth_month (d.month - 1) month_names ++ (95 ∷ (48 + d.day / 10) ∷ (48 + d.day % 10) ∷ [])

unfoldable pub build_date_label : Option Text → Text
build_date_label value = date_label (parse_pdf_date value)

abbrev pub titular_or : Option Text → Text
titular_or none = codes "PROVEEDOR"
titular_or (some t) = or_text t (codes "PROVEEDOR")

unfoldable pub build_pdf_filename : Unicode → Option Text → Option Text → Text
build_pdf_filename u titular fecha =
    sanitize_filename_part u (titular_or titular) ++ (95 ∷ (build_date_label fecha ++ codes ".pdf"))
