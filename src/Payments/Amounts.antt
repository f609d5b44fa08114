-- ===== src/Payments/Amounts.antt =====
-- `extraer_monto`, `extraer_importe_cargado` and `normalizar_moneda` of
-- app/api/finance/payment_provider/pdf_parser.py.
pub mod Digits
pub mod Thousands
pub mod Laws
use proyecto.Common.{
  ℕ, zero, suc, ◌+◌, ◌-◌, ◌*◌, Bool, true, false, not, ◌&&◌, ◌||◌, Option, none, some, List, [],
  ◌∷◌, ◌++◌, map, ◌==◌, if◌then◌else◌, length, select, all, String,
}
use proyecto.Common.Chars.{codes, is_space_code}
use proyecto.Payments.Text.{
  Text, is_digit, is_upper, is_lower, upper, text_eq, skip_space, strip, after_prefix, span_take,
  span_drop,
}

-- A `Decimal`: its digits as a number, and how many of them stand behind the point
pub record Decimal : Type 0 where
  pub digits : ℕ
  pub places : ℕ

abbrev pub comma : ℕ
comma = 44

abbrev pub point : ℕ
point = 46

abbrev pub not_comma : ℕ → Bool
not_comma c = not (c == comma)

abbrev pub number_from : ℕ → Text → ℕ
number_from n [] = n
number_from n (c ∷ t) = number_from (n * 10 + (c - 48)) t

abbrev pub nonempty_text : Text → Bool
nonempty_text [] = false
nonempty_text (c ∷ t) = true

-- Digits, a point and digits, of which one must be there: what `Decimal` takes of the texts that occur
-- here. `none` is `InvalidOperation`.
abbrev pub decimal_of : Text → Text → Option Decimal
decimal_of whole fraction =
    if (nonempty_text whole || nonempty_text fraction)
      && all is_digit whole
      && all is_digit fraction
    then some (record { digits = number_from 0 (whole ++ fraction); places = length fraction })
    else none

abbrev pub is_point : ℕ → Bool
is_point c = c == point

abbrev pub not_point : ℕ → Bool
not_point c = not (c == point)

abbrev pub tail : Text → Text
tail [] = []
tail (c ∷ t) = t

-- `Decimal(text)`
unfoldable pub to_decimal : Text → Option Decimal
to_decimal t = decimal_of (span_take not_point t) (tail (span_drop not_point t))

-- The dictionary of `normalizar_moneda`
abbrev pub monedas : List (Text × Text)
monedas =
    (codes "S/", codes "PEN")
    ∷ (codes "S/.", codes "PEN")
    ∷ (codes "PEN", codes "PEN")
    ∷ (codes "SOLES", codes "PEN")
    ∷ (codes "SOL", codes "PEN")
    ∷ (codes "US$", codes "USD")
    ∷ (codes "USD", codes "USD")
    ∷ (codes "$", codes "USD")
    ∷ (codes "DOLARES", codes "USD")
    ∷ []

abbrev pub currency_of : List (Text × Text) → Text → Text
currency_of [] moneda = moneda
currency_of (m ∷ rest) moneda =
    let other = currency_of rest moneda in if text_eq m.0 moneda then m.1 else other

abbrev pub not_blank : ℕ → Bool
not_blank c = not (c == 32)

-- The texts that come here are ASCII.
unfoldable pub normalizar_moneda : Text → Text
normalizar_moneda moneda = currency_of monedas (select not_blank (map upper (strip moneda)))

pub record MontoInfo : Type 0 where
  pub texto : Text
  pub moneda_original : Text
  pub moneda : Text
  pub monto : Decimal

-- The beginning of the text that a word matches without regard to case, and what follows it
abbrev pub matched : Text → Text → Option (Text × Text)
matched [] t = some ([], t)
matched (c ∷ word) [] = none
matched (c ∷ word) (d ∷ t) =
    let longer = with_first d (matched word t) in if upper d == c then longer else none
  where
    with_first : ℕ → Option (Text × Text) → Option (Text × Text)
    with_first d none = none
    with_first d (some m) = some (d ∷ m.0, m.1)

abbrev pub or_match : Option (Text × Text) → Option (Text × Text) → Option (Text × Text)
or_match none later = later
or_match (some m) later = some m

-- `S\/\.?|US\$|USD|PEN|\$`
abbrev pub match_moneda : Text → Option (Text × Text)
match_moneda t = or_match (matched (codes "S/.") t) (
    or_match (matched (codes "S/") t) (
      or_match (matched (codes "US$") t) (
        or_match (matched (codes "USD") t)
          (or_match (matched (codes "PEN") t) (matched (codes "$") t)))))

-- `[\d,]+`
abbrev pub is_amount_char : ℕ → Bool
is_amount_char c = is_digit c || c == comma

-- `(?:\.\d{1,2})?\s*$`, after the whole part: the digits behind the point
abbrev pub blank_only : Text → Text → Option Text
blank_only digits t = if all is_space_code t then some digits else none

abbrev pub behind_point : Text → Option Text
behind_point [] = none
behind_point (c ∷ []) = if is_digit c then some (c ∷ []) else none
behind_point (c ∷ d ∷ t) =
    if not (is_digit c)
    then none
    else if is_digit d
    then blank_only (c ∷ d ∷ []) t
    else blank_only (c ∷ []) (d ∷ t)

abbrev pub fraction_of : Text → Option Text
fraction_of [] = some []
fraction_of (c ∷ t) = if c == point then behind_point t else blank_only [] (c ∷ t)

-- The whole part without its commas; only commas are no number.
abbrev pub amount_info : Text → Text → Text → Option Text → Option MontoInfo
amount_info valor moneda whole none = none
amount_info valor moneda whole (some fraction) =
    elim (decimal_of (select not_comma whole) fraction) [
      | none ↦ none
      | some monto ↦ some (record {
        texto = strip valor;
        moneda_original = moneda;
        moneda = normalizar_moneda moneda;
        monto = monto;
      })
    ]

abbrev pub amount_from : Text → Text → Text → Option MontoInfo
amount_from valor moneda [] = none
amount_from valor moneda (c ∷ t) =
    if is_amount_char c
    then amount_info valor moneda (span_take is_amount_char (c ∷ t))
        (fraction_of (span_drop is_amount_char (c ∷ t)))
    else none

abbrev pub amount_after : Text → Option (Text × Text) → Option MontoInfo
amount_after valor none = none
amount_after valor (some m) = amount_from valor m.0 (skip_space m.1)

unfoldable pub extraer_monto : Text → Option MontoInfo
extraer_monto valor = amount_after valor (match_moneda (skip_space valor))

-- `[\d.,]+` and `[A-Za-z/.\$]+`
abbrev pub is_number_char : ℕ → Bool
is_number_char c = is_digit c || c == comma || c == point

abbrev pub is_currency_char : ℕ → Bool
is_currency_char c = is_upper c || is_lower c || c == 47 || c == point || c == 36

abbrev pub charged_info : Text → Text → Text → Option Decimal → Option MontoInfo
charged_info valor moneda rest none = none
charged_info valor moneda rest (some monto) =
    if all is_space_code rest && nonempty_text moneda
    then some (record {
      texto = strip valor;
      moneda_original = moneda;
      moneda = normalizar_moneda moneda;
      monto = monto;
    })
    else none

-- The number, white space, and the currency as a word
abbrev pub charged_from : Text → Text → Text → Option MontoInfo
charged_from valor number [] = none
charged_from valor number (c ∷ t) =
    if nonempty_text number && is_space_code c
    then charged_info valor (span_take is_currency_char (skip_space t))
        (span_drop is_currency_char (skip_space t)) (to_decimal (select not_comma number))
    else none

unfoldable pub extraer_importe_cargado : Text → Option MontoInfo
extraer_importe_cargado valor =
    charged_from valor (span_take is_number_char (strip valor))
      (span_drop is_number_char (strip valor))
