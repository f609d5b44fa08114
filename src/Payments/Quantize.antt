-- ===== src/Payments/Quantize.antt =====
-- `Decimal.quantize(Decimal("0.01"))`, with which `_serialize_group` of
-- app/api/finance/payment_provider/processor.py writes its amounts.
use proyecto.Common.{
  ℕ, ◌+◌, ◌-◌, ◌*◌, ◌/◌, ◌%◌, ◌^◌, ◌≤◌, ◌<◌, ◌≡◌, Option, none, some, List, ◌∷◌, arith, ltb, leb,
  if◌then◌else◌,
}
use proyecto.Payments.Amounts.{Decimal}

-- The nearest multiple, and of two equally near the even one
abbrev pub half_even : ℕ → ℕ → ℕ
half_even n d =
    if ltb (2 * (n % d)) d
    then n / d
    else if ltb d (2 * (n % d))
    then n / d + 1
    else n / d + n / d % 2

-- The coefficient has at most the 28 digits of the default context.
abbrev pub max_units : ℕ
max_units = 10000000000000000000000000000

abbrev pub units_of : Decimal → ℕ
units_of d =
    if leb d.places 2
    then d.digits * 10 ^ (2 - d.places)
    else half_even d.digits (10 ^ (d.places - 2))

-- None is `InvalidOperation`.
unfoldable pub quantize : Decimal → Option Decimal
quantize d =
    if ltb (units_of d) max_units then some (record { digits = units_of d; places = 2 }) else none

-- Both, or nothing where one raises
abbrev pub add_first {ℓ} : {A : Type ℓ} → Option A → Option (List A) → Option (List A)
add_first (some a) (some rest) = some (a ∷ rest)
add_first _ _ = none

-- Two decimals are written out as they are.
abbrev pub in_cents : Decimal → Decimal
in_cents d = record { digits = d.digits * 10 ^ (2 - d.places); places = 2 }

pub quantize-in_cents :
    (d : Decimal)
    → d.places ≤ 2
    → d.digits * 10 ^ (2 - d.places) < max_units
    → quantize d ≡ some (in_cents d)
unfolding quantize
quantize-in_cents d few small = ground (arith, few, small)
