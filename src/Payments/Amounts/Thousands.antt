-- ===== src/Payments/Amounts/Thousands.antt =====
-- The units of an amount in groups of three digits, with commas between them, and the number of them.
use proyecto.Common.{
  ◌≡◌, refl, ◌∙◌, ap, ℕ, zero, suc, ◌+◌, ◌-◌, ◌*◌, ◌/◌, ◌%◌, ◌≤◌, ◌<◌, true, [], ◌∷◌, ◌++◌, arith,
  ltb, if◌then◌else◌, All, Bool, Bool-cases, inl, inr, select, length,
}
use proyecto.Common.Counting.{Holds, All-append, All-imp}
use proyecto.Payments.Text.{Text, is_digit}
use proyecto.Payments.Amounts.{number_from, not_comma, is_amount_char}
use proyecto.Payments.Amounts.Digits.{
  digits_of, AllDigits, is_digit-lt, digits_of-AllDigits, number_from-digits_of,
}

-- A comma and the last three digits
abbrev pub three_digits : ℕ → Text
three_digits n = 44 ∷ (48 + n % 1000 / 100) ∷ (48 + n % 100 / 10) ∷ (48 + n % 10) ∷ []

-- On fuel
abbrev pub thousands : ℕ → ℕ → Text
thousands zero n = []
thousands (suc fuel) n =
    let front = thousands fuel (n / 1000) in
    if ltb n 1000 then digits_of (suc n) n else front ++ three_digits n

abbrev pub AllAmount : Text → Type 0
AllAmount t = All (Holds is_amount_char) t

select-append : (p : ℕ → Bool) (s t : Text) → select p (s ++ t) ≡ select p s ++ select p t
select-append p [] t = refl
select-append p (c ∷ s) t = ground (arith, select-append p s t)

select-digits : (w : Text) → AllDigits w → select not_comma w ≡ w
select-digits [] h = refl
select-digits (c ∷ w) h = ground (arith, h.0, select-digits w h.1)

pub select-AllDigits : (w : Text) → AllAmount w → AllDigits (select not_comma w)
select-AllDigits [] h = tt
select-AllDigits (c ∷ w) h = elim (Bool-cases (not_comma c)) [
  | inl digit ↦ rw digit (ground (arith, h.0, digit), select-AllDigits w h.1)
  | inr comma ↦ rw comma (select-AllDigits w h.1)
]

digit-amount : (c : ℕ) → is_digit c ≡ true → is_amount_char c ≡ true
digit-amount c h = ground (arith, h)

digit_lt-amount : (d : ℕ) → d < 10 → is_amount_char (48 + d) ≡ true
digit_lt-amount d h = digit-amount (48 + d) (is_digit-lt d h)

pub thousands-AllAmount : (fuel n : ℕ) → AllAmount (thousands fuel n)
thousands-AllAmount zero n = tt
thousands-AllAmount (suc fuel) n = elim (Bool-cases (ltb n 1000)) [
  | inl small ↦ rw small (
      All-imp (Holds is_digit) (Holds is_amount_char) (digits_of (suc n) n) digit-amount
        (digits_of-AllDigits (suc n) n))
  | inr big ↦ rw big (
      All-append (Holds is_amount_char) (thousands fuel (n / 1000)) (three_digits n)
        (thousands-AllAmount fuel (n / 1000))
        (
          refl,
          (
            digit_lt-amount (n % 1000 / 100) (omega arith),
            (
              digit_lt-amount (n % 100 / 10) (omega arith),
              (digit_lt-amount (n % 10) (omega arith), tt),
            ),
          ),
        ))
]

plain_three :
    (a b c : ℕ)
    → select not_comma (44 ∷ (48 + a) ∷ (48 + b) ∷ (48 + c) ∷ [])
      ≡ (48 + a) ∷ (48 + b) ∷ (48 + c) ∷ []
plain_three a b c = ground arith

number_from-three :
    (n : ℕ) (w : Text) (a b c : ℕ)
    → number_from n (w ++ ((48 + a) ∷ (48 + b) ∷ (48 + c) ∷ []))
      ≡ ((number_from n w * 10 + a) * 10 + b) * 10 + c
number_from-three n [] a b c = omega arith
number_from-three n (d ∷ w) a b c = number_from-three (n * 10 + (d - 48)) w a b c

-- Fuel above the number is enough, and the commas take no part in it.
pub number_from-thousands :
    (fuel n : ℕ) → n < fuel → number_from 0 (select not_comma (thousands fuel n)) ≡ n
number_from-thousands zero n h = absurd (omega arith)
number_from-thousands (suc fuel) n h = elim (Bool-cases (ltb n 1000)) [
  | inl small ↦ rw small (
      ap (number_from 0) (select-digits (digits_of (suc n) n) (digits_of-AllDigits (suc n) n))
      ∙ number_from-digits_of (suc n) n (omega arith))
  | inr big ↦
      let large : 1000 ≤ n = ground (arith, big) in
      let whole : Text = thousands fuel (n / 1000) in
      let front : number_from 0 (select not_comma whole) ≡ n / 1000 =
        number_from-thousands fuel (n / 1000) (omega arith) in
      let a : ℕ = n % 1000 / 100 in
      let b : ℕ = n % 100 / 10 in
      let c : ℕ = n % 10 in
      rw big (
        ap (number_from 0) (
          select-append not_comma whole (three_digits n)
          ∙ ap (λ t. select not_comma whole ++ t) (plain_three a b c))
        ∙ number_from-three 0 (select not_comma whole) a b c
        ∙ omega (arith, front))
]

length-append_pos : (s t : Text) → 0 < length t → 0 < length (s ++ t)
length-append_pos [] t h = h
length-append_pos (d ∷ s) t h = omega arith

pub length-thousands : (fuel n : ℕ) → 0 < length (thousands (suc fuel) n)
length-thousands fuel n = elim (Bool-cases (ltb n 1000)) [
  | inl small ↦ rw small (length-digits_of n n)
  | inr big ↦ rw big (length-append_pos (thousands fuel (n / 1000)) (three_digits n) (omega arith))
]
  where
    length-digits_of : (m k : ℕ) → 0 < length (digits_of (suc m) k)
    length-digits_of m k = elim (Bool-cases (ltb k 10)) [
      | inl small ↦ rw small (omega arith)
      | inr big ↦
          rw big (length-append_pos (digits_of m (k / 10)) ((48 + k % 10) ∷ []) (omega arith))
    ]
