-- ===== src/Payments/Amounts/Digits.antt =====
-- The digits of a number, and the number of the digits.
use proyecto.Common.{
  ◌≡◌, refl, ℕ, zero, suc, ◌+◌, ◌-◌, ◌*◌, ◌/◌, ◌%◌, ◌≤◌, ◌<◌, true, [], ◌∷◌, ◌++◌, arith, ltb,
  if◌then◌else◌, All, Bool-cases, inl, inr, ltb→lt,
}
use proyecto.Common.Counting.{Holds, All-append}
use proyecto.Payments.Text.{Text, is_digit}
use proyecto.Payments.Amounts.{number_from}

-- The decimal digits of a number, on fuel
abbrev pub digits_of : ℕ → ℕ → Text
digits_of zero n = []
digits_of (suc fuel) n =
    let front = digits_of fuel (n / 10) in
    if ltb n 10 then (48 + n) ∷ [] else front ++ ((48 + n % 10) ∷ [])

abbrev pub AllDigits : Text → Type 0
AllDigits t = All (Holds is_digit) t

pub is_digit-lt : (d : ℕ) → d < 10 → is_digit (48 + d) ≡ true
is_digit-lt d h = ground arith

pub number_from-append :
    (n : ℕ) (s : Text) (c : ℕ) → number_from n (s ++ (c ∷ [])) ≡ number_from n s * 10 + (c - 48)
number_from-append n [] c = refl
number_from-append n (d ∷ s) c = number_from-append (n * 10 + (d - 48)) s c

pub digits_of-AllDigits : (fuel n : ℕ) → AllDigits (digits_of fuel n)
digits_of-AllDigits zero n = tt
digits_of-AllDigits (suc fuel) n = elim (Bool-cases (ltb n 10)) [
  | inl small ↦ rw small (is_digit-lt n (ltb→lt n 10 small), tt)
  | inr big ↦ rw big (
      All-append (Holds is_digit) (digits_of fuel (n / 10)) _ (digits_of-AllDigits fuel (n / 10))
        (is_digit-lt (n % 10) (omega arith), tt))
]

-- Fuel above the number is enough.
pub number_from-digits_of : (fuel n : ℕ) → n < fuel → number_from 0 (digits_of fuel n) ≡ n
number_from-digits_of zero n h = absurd (omega arith)
number_from-digits_of (suc fuel) n h = elim (Bool-cases (ltb n 10)) [
  | inl small ↦ rw small (omega arith)
  | inr big ↦
      let large : 10 ≤ n = ground (arith, big) in
      let front : number_from 0 (digits_of fuel (n / 10)) ≡ n / 10 =
        number_from-digits_of fuel (n / 10) (omega arith) in
      rw (big, number_from-append 0 (digits_of fuel (n / 10)) (48 + n % 10)) (omega (arith, front))
]
