-- ===== src/Payments/Amounts/Laws.antt =====
-- An amount that is printed is read back.
use proyecto.Payments.Amounts.Digits.{AllDigits, is_digit-lt}
use proyecto.Payments.Amounts.Thousands.{
  thousands, AllAmount, select-AllDigits, thousands-AllAmount, number_from-thousands,
  length-thousands,
}
use proyecto.Common.{
  ◌≡◌, refl, ◌∙◌, ap, ℕ, suc, ◌+◌, ◌-◌, ◌*◌, ◌/◌, ◌%◌, ◌<◌, true, false, some, [], ◌∷◌, ◌++◌, arith,
  all, select, length,
}
use proyecto.Common.Chars.{codes, is_space_code}
use proyecto.Payments.Text.{Text, is_digit, skip_space, strip, span_take, span_drop}
use proyecto.Payments.Amounts.{
  Decimal, not_comma, number_from, decimal_of, is_amount_char, fraction_of, amount_info,
  amount_from, amount_after, match_moneda, extraer_monto, normalizar_moneda,
}

span_take-amount : (w f : Text) → AllAmount w → span_take is_amount_char (w ++ (46 ∷ f)) ≡ w
span_take-amount [] f h = refl
span_take-amount (c ∷ w) f h = ground (arith, h.0, span_take-amount w f h.1)

span_drop-amount : (w f : Text) → AllAmount w → span_drop is_amount_char (w ++ (46 ∷ f)) ≡ 46 ∷ f
span_drop-amount [] f h = refl
span_drop-amount (c ∷ w) f h = ground (arith, h.0, span_drop-amount w f h.1)

all-digits : (w : Text) → AllDigits w → all is_digit w ≡ true
all-digits [] h = refl
all-digits (c ∷ w) h = ground (arith, h.0, all-digits w h.1)

amount-not_space : (c : ℕ) → is_amount_char c ≡ true → is_space_code c ≡ false
amount-not_space c h = ground (arith, h)

skip_space-amount : (c : ℕ) (t : Text) → is_amount_char c ≡ true → skip_space (32 ∷ c ∷ t) ≡ c ∷ t
skip_space-amount c t h = rw (amount-not_space c h) refl

fraction_of-digits :
    (a b : ℕ)
    → is_digit a ≡ true
    → is_digit b ≡ true
    → fraction_of (46 ∷ a ∷ b ∷ []) ≡ some (a ∷ b ∷ [])
fraction_of-digits a b ha hb = rw (ha, hb) refl

decimal_of-digits :
    (x : Text) (a b : ℕ)
    → AllDigits x
    → is_digit a ≡ true
    → is_digit b ≡ true
    → decimal_of x (a ∷ b ∷ [])
      ≡ some (record { digits = number_from 0 (x ++ (a ∷ b ∷ [])); places = 2 })
decimal_of-digits [] a b h ha hb = rw (ha, hb) refl
decimal_of-digits (c ∷ w) a b h ha hb = rw (h.0, all-digits w h.1, ha, hb) refl

from_head :
    (valor moneda : Text) (c : ℕ) (t : Text)
    → is_amount_char c ≡ true
    → amount_from valor moneda (c ∷ t)
      ≡ amount_info valor moneda
          (span_take is_amount_char (c ∷ t))
          (fraction_of (span_drop is_amount_char (c ∷ t)))
from_head valor moneda c t h = rw h refl

from_decimal :
    (valor moneda whole fraction : Text) (monto : Decimal)
    → decimal_of (select not_comma whole) fraction ≡ some monto
    → amount_info valor moneda whole (some fraction)
      ≡ some (record {
        texto = strip valor;
        moneda_original = moneda;
        moneda = normalizar_moneda moneda;
        monto = monto;
      })
from_decimal valor moneda whole fraction monto h = rw (h, amount_info) refl

amount_from-whole :
    (valor moneda : Text) (c : ℕ) (w : Text) (a b : ℕ)
    → AllAmount (c ∷ w)
    → is_digit a ≡ true
    → is_digit b ≡ true
    → amount_from valor moneda (c ∷ w ++ (46 ∷ a ∷ b ∷ []))
      ≡ some (record {
        texto = strip valor;
        moneda_original = moneda;
        moneda = normalizar_moneda moneda;
        monto = record {
          digits = number_from 0 (select not_comma (c ∷ w) ++ (a ∷ b ∷ []));
          places = 2;
        };
      })
amount_from-whole valor moneda c w a b h ha hb =
    let whole : span_take is_amount_char (c ∷ w ++ (46 ∷ a ∷ b ∷ [])) ≡ c ∷ w =
      span_take-amount (c ∷ w) (a ∷ b ∷ []) h in
    let after : span_drop is_amount_char (c ∷ w ++ (46 ∷ a ∷ b ∷ [])) ≡ 46 ∷ a ∷ b ∷ [] =
      span_drop-amount (c ∷ w) (a ∷ b ∷ []) h in
    from_head valor moneda c (w ++ (46 ∷ a ∷ b ∷ [])) h.0
    ∙ ap
        (λ x.
          amount_info valor moneda x
            (fraction_of (span_drop is_amount_char (c ∷ w ++ (46 ∷ a ∷ b ∷ [])))))
        whole
    ∙ ap (λ x. amount_info valor moneda (c ∷ w) (fraction_of x)) after
    ∙ ap (λ o. amount_info valor moneda (c ∷ w) o) (fraction_of-digits a b ha hb)
    ∙ from_decimal valor moneda (c ∷ w) (a ∷ b ∷ []) _
        (decimal_of-digits (select not_comma (c ∷ w)) a b (select-AllDigits (c ∷ w) h) ha hb)

-- The signs of the currencies in front of an amount
pub data Symbol : Type 0 where
  sol sol_dot us_dollar usd pen dollar : Symbol

abbrev pub symbol_text : Symbol → Text
symbol_text sol = codes "S/"
symbol_text sol_dot = codes "S/."
symbol_text us_dollar = codes "US$"
symbol_text usd = codes "USD"
symbol_text pen = codes "PEN"
symbol_text dollar = codes "$"

abbrev pub symbol_currency : Symbol → Text
symbol_currency sol = codes "PEN"
symbol_currency sol_dot = codes "PEN"
symbol_currency us_dollar = codes "USD"
symbol_currency usd = codes "USD"
symbol_currency pen = codes "PEN"
symbol_currency dollar = codes "USD"

-- An amount in cents as a receipt prints it, such as `S/ 4,372.79`: the sign, a space, the units with
-- a comma between each three digits, a point and two digits
abbrev pub units_text : ℕ → Text
units_text cents = thousands (suc (cents / 100)) (cents / 100)

abbrev pub cents_text : ℕ → Text
cents_text cents = (48 + cents % 100 / 10) ∷ (48 + cents % 10) ∷ []

abbrev pub print_amount : Symbol → ℕ → Text
print_amount symbol cents =
    symbol_text symbol ++ (32 ∷ (units_text cents ++ (46 ∷ cents_text cents)))

read_symbol :
    (symbol : Symbol) (valor t : Text)
    → amount_after valor (match_moneda (skip_space (symbol_text symbol ++ (32 ∷ t))))
      ≡ amount_from valor (symbol_text symbol) (skip_space (32 ∷ t))
read_symbol sol valor t = refl
read_symbol sol_dot valor t = refl
read_symbol us_dollar valor t = refl
read_symbol usd valor t = refl
read_symbol pen valor t = refl
read_symbol dollar valor t = refl

symbol-currency :
    (symbol : Symbol) → normalizar_moneda (symbol_text symbol) ≡ symbol_currency symbol
unfolding normalizar_moneda strip
symbol-currency sol = refl
symbol-currency sol_dot = refl
symbol-currency us_dollar = refl
symbol-currency usd = refl
symbol-currency pen = refl
symbol-currency dollar = refl

number_from-two :
    (n : ℕ) (w : Text) (a b : ℕ)
    → number_from n (w ++ ((48 + a) ∷ (48 + b) ∷ [])) ≡ (number_from n w * 10 + a) * 10 + b
number_from-two n [] a b = omega arith
number_from-two n (d ∷ w) a b = number_from-two (n * 10 + (d - 48)) w a b

amount_from-amount :
    (valor moneda w : Text) (a b : ℕ)
    → AllAmount w
    → 0 < length w
    → a < 10
    → b < 10
    → amount_from valor moneda (skip_space (32 ∷ (w ++ (46 ∷ (48 + a) ∷ (48 + b) ∷ []))))
      ≡ some (record {
        texto = strip valor;
        moneda_original = moneda;
        moneda = normalizar_moneda moneda;
        monto = record {
          digits = (number_from 0 (select not_comma w) * 10 + a) * 10 + b;
          places = 2;
        };
      })
amount_from-amount valor moneda [] a b h l ha hb = absurd (omega arith)
amount_from-amount valor moneda (c ∷ w) a b h l ha hb =
    ap (amount_from valor moneda) (skip_space-amount c (w ++ (46 ∷ (48 + a) ∷ (48 + b) ∷ [])) h.0)
    ∙ amount_from-whole valor moneda c w (48 + a) (48 + b) h (is_digit-lt a ha) (is_digit-lt b hb)
    ∙ ap
        (λ n. some (record {
          texto = strip valor;
          moneda_original = moneda;
          moneda = normalizar_moneda moneda;
          monto = record { digits = n; places = 2 };
        }))
        (number_from-two 0 (select not_comma (c ∷ w)) a b)

-- An amount that a receipt prints, with commas between the thousands, is read back: for every sign of a currency and every amount in cents,
-- `extraer_monto` of the printed text gives that sign, its currency and that amount.
pub extraer_monto-print_amount :
    (symbol : Symbol) (cents : ℕ)
    → extraer_monto (print_amount symbol cents)
      ≡ some (record {
        texto = strip (print_amount symbol cents);
        moneda_original = symbol_text symbol;
        moneda = symbol_currency symbol;
        monto = record { digits = cents; places = 2 };
      })
unfolding extraer_monto
extraer_monto-print_amount symbol cents =
    let printed : Text = print_amount symbol cents in
    let units : number_from 0 (select not_comma (units_text cents)) ≡ cents / 100 =
      number_from-thousands (suc (cents / 100)) (cents / 100) (omega arith) in
    let value : (number_from 0 (select not_comma (units_text cents)) * 10 + cents % 100 / 10) * 10
          + cents % 10
        ≡ cents =
      omega (arith, units) in
    read_symbol symbol printed (units_text cents ++ (46 ∷ cents_text cents))
    ∙ amount_from-amount printed (symbol_text symbol) (units_text cents) (cents % 100 / 10)
        (cents % 10) (thousands-AllAmount (suc (cents / 100)) (cents / 100))
        (length-thousands (cents / 100) (cents / 100)) (omega arith) (omega arith)
    ∙ ap
        (λ n. some (record {
          texto = strip printed;
          moneda_original = symbol_text symbol;
          moneda = normalizar_moneda (symbol_text symbol);
          monto = record { digits = n; places = 2 };
        }))
        value
    ∙ ap
        (λ m. some (record {
          texto = strip printed;
          moneda_original = symbol_text symbol;
          moneda = m;
          monto = record { digits = cents; places = 2 };
        }))
        (symbol-currency symbol)
