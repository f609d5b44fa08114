-- ===== src/Payments/Groups/Totals.antt =====
-- A total of a group: what an amount adds to it, in units of a common scale.
use proyecto.Common.{
  ◌≡◌, refl, sym, ◌∙◌, ap, ℕ, zero, suc, ◌+◌, ◌-◌, ◌*◌, ◌^◌, ◌≤◌, true, [], ◌∷◌, arith,
  if◌then◌else◌, All, Bool-cases, inl, inr,
}
use native.Mathlib.Nat.{add-zero, add-suc, pow-suc, mul_assoc, add-mul}
use proyecto.Payments.Text.{Text, text_eq}
use proyecto.Payments.Amounts.{Decimal}
use proyecto.Payments.Groups.{longer, at_scale, add, Totals, no_amount, add_total}

pub text_eq-eq : (s t : Text) → text_eq s t ≡ true → s ≡ t
text_eq-eq [] [] h = refl
text_eq-eq [] (d ∷ t) h = absurd (cc)
text_eq-eq (c ∷ s) [] h = absurd (cc)
text_eq-eq (c ∷ s) (d ∷ t) h =
    let first : c ≡ d = ground (arith, h) in
    let rest : s ≡ t = text_eq-eq s t (ground (arith, h)) in cc

-- The amount in units of ten to the minus `places`
abbrev pub amount_in : ℕ → Text → Text × Decimal → ℕ
amount_in places currency t = if text_eq t.0 currency then at_scale places t.1 else 0

abbrev pub totals_in : ℕ → Text → Totals → ℕ
totals_in places currency [] = 0
totals_in places currency (t ∷ totals) =
    amount_in places currency t + totals_in places currency totals

abbrev pub Fits : ℕ → Text × Decimal → Type 0
Fits places t = t.1.places ≤ places

longer-le : (a b k : ℕ) → a ≤ k → b ≤ k → longer a b ≤ k
longer-le a b k h g = ground (arith, h, g)

longer_left : (a b : ℕ) → a ≤ longer a b
longer_left a b = ground arith

longer_right : (a b : ℕ) → b ≤ longer a b
longer_right a b = ground arith

pow_split : (a b : ℕ) → 10 ^ (a + b) ≡ 10 ^ a * 10 ^ b
pow_split a zero = ap (λ n. 10 ^ n) (add-zero a) ∙ omega arith
pow_split a (suc b) =
    ap (λ n. 10 ^ n) (add-suc a b)
    ∙ pow-suc 10 (a + b)
    ∙ ap (λ n. n * 10) (pow_split a b)
    ∙ mul_assoc (10 ^ a) (10 ^ b) 10
    ∙ ap (λ n. 10 ^ a * n) (sym (pow-suc 10 b))

rescaled :
    (digits p m k : ℕ)
    → p ≤ m
    → m ≤ k
    → digits * 10 ^ (m - p) * 10 ^ (k - m) ≡ digits * 10 ^ (k - p)
rescaled digits p m k h g =
    let gap : (m - p) + (k - m) ≡ k - p = omega arith in
    mul_assoc digits (10 ^ (m - p)) (10 ^ (k - m))
    ∙ ap (λ n. digits * n) (sym (pow_split (m - p) (k - m)) ∙ ap (λ n. 10 ^ n) gap)

at_scale-add :
    (k : ℕ) (a b : Decimal)
    → a.places ≤ k
    → b.places ≤ k
    → at_scale k (add a b) ≡ at_scale k a + at_scale k b
unfolding add
at_scale-add k a b h g =
    let m : ℕ = longer a.places b.places in
    add-mul (at_scale m a) (at_scale m b) (10 ^ (k - m))
    ∙ ap (λ n. n + at_scale m b * 10 ^ (k - m))
        (rescaled a.digits a.places m k (longer_left a.places b.places)
          (longer-le a.places b.places k h g))
    ∙ ap (λ n. at_scale k a + n)
        (rescaled b.digits b.places m k (longer_right a.places b.places)
          (longer-le a.places b.places k h g))

add-places : (k : ℕ) (a b : Decimal) → a.places ≤ k → b.places ≤ k → (add a b).places ≤ k
unfolding add
add-places k a b h g = longer-le a.places b.places k h g

module _ (k : ℕ) (wide : 2 ≤ k) (currency : Text) where
  first_amount :
      (moneda : Text) (monto : Decimal)
      → monto.places ≤ k
      → amount_in k currency (moneda, add no_amount monto) ≡ amount_in k currency (moneda, monto)
  first_amount moneda monto h =
      ap (λ n. if text_eq moneda currency then n else 0)
        (at_scale-add k no_amount monto wide h ∙ omega arith)

  more_amount :
      (t : Text × Decimal) (moneda : Text) (monto : Decimal)
      → text_eq t.0 moneda ≡ true
      → t.1.places ≤ k
      → monto.places ≤ k
      → amount_in k currency (t.0, add t.1 monto)
        ≡ amount_in k currency t + amount_in k currency (moneda, monto)
  more_amount t moneda monto same h g =
      let e : t.0 ≡ moneda = text_eq-eq t.0 moneda same in
      let test : text_eq moneda currency ≡ text_eq t.0 currency =
        ap (λ m. text_eq m currency) (sym e) in
      let sum : at_scale k (add t.1 monto) ≡ at_scale k t.1 + at_scale k monto =
        at_scale-add k t.1 monto h g in
      rw test (ground (arith, sum))

  pub totals_in-add_total :
      (moneda : Text) (monto : Decimal) (totals : Totals)
      → monto.places ≤ k
      → All (Fits k) totals
      → totals_in k currency (add_total moneda monto totals)
        ≡ totals_in k currency totals + amount_in k currency (moneda, monto)
  unfolding add_total
  totals_in-add_total moneda monto [] h f = omega (arith, first_amount moneda monto h)
  totals_in-add_total moneda monto (t ∷ totals) h f = elim (Bool-cases (text_eq t.0 moneda)) [
    | inl same ↦ rw same (omega (arith, more_amount t moneda monto same f.0 h))
    | inr other ↦ rw other (omega (arith, totals_in-add_total moneda monto totals h f.1))
  ]

  pub add_total-Fits :
      (moneda : Text) (monto : Decimal) (totals : Totals)
      → monto.places ≤ k
      → All (Fits k) totals
      → All (Fits k) (add_total moneda monto totals)
  unfolding add_total
  add_total-Fits moneda monto [] h f = (add-places k no_amount monto wide h, tt)
  add_total-Fits moneda monto (t ∷ totals) h f = elim (Bool-cases (text_eq t.0 moneda)) [
    | inl same ↦ rw same (add-places k t.1 monto f.0 h, f.1)
    | inr other ↦ rw other (f.0, add_total-Fits moneda monto totals h f.1)
  ]
