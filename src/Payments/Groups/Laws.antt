-- ===== src/Payments/Groups/Laws.antt =====
-- The totals and the counts of the groups, over all of them together.
use proyecto.Common.{
  ◌≡◌, refl, ◌∙◌, ap, ℕ, ◌+◌, ◌≤◌, Bool, Option, List, [], ◌∷◌, ◌++◌, arith, length, count, All,
  Bool-cases, inl, inr, if◌then◌else◌, count-append,
}
use proyecto.Common.Counting.{All-append}
use proyecto.Payments.Text.{Text, Unicode}
use proyecto.Payments.Groups.Serialized.{item_count, tally, counted}
use proyecto.Payments.Groups.{
  Provider, Payment, GroupKey, key_eq, Totals, add_total, PaymentItem, Group, new_group, Groups,
  put_payment, add_payment, provider_of, group_key, payment_item, display_name, group_from,
  SerializedGroup,
}
use proyecto.Payments.Groups.Totals.{
  amount_in, totals_in, Fits, totals_in-add_total, add_total-Fits,
}

-- Over all groups: the total of a currency
abbrev pub groups_in : ℕ → Text → Groups → ℕ
groups_in places currency [] = 0
groups_in places currency (g ∷ groups) =
    totals_in places currency g.1.totales + groups_in places currency groups

abbrev pub serialized_in : ℕ → Text → List SerializedGroup → ℕ
serialized_in places currency [] = 0
serialized_in places currency (s ∷ more) =
    totals_in places currency s.group.totales + serialized_in places currency more

-- The amounts of the payments in this currency
abbrev pub payments_in : ℕ → Text → List Payment → ℕ
payments_in places currency [] = 0
payments_in places currency (p ∷ payments) =
    amount_in places currency (p.moneda, p.monto) + payments_in places currency payments

abbrev pub FitsPayment : ℕ → Payment → Type 0
FitsPayment places p = p.monto.places ≤ places

abbrev pub FitsGroup : ℕ → GroupKey × Group → Type 0
FitsGroup places g = All (Fits places) g.1.totales

-- A group without payments
abbrev pub IsFresh : Group → Type 0
IsFresh g = (g.totales ≡ []) × (g.cantidad_pagos ≡ 0)

module _ (k : ℕ) (wide : 2 ≤ k) (currency : Text) where
  groups_in-put :
      (key : GroupKey) (fresh : Group) (item : PaymentItem) (p : Payment) (groups : Groups)
      → IsFresh fresh
      → FitsPayment k p
      → All (FitsGroup k) groups
      → (groups_in k currency (put_payment key fresh item p groups)
          ≡ groups_in k currency groups + amount_in k currency (p.moneda, p.monto))
        × (counted (put_payment key fresh item p groups) ≡ counted groups + 1)
        × All (FitsGroup k) (put_payment key fresh item p groups)
  unfolding put_payment
  groups_in-put key fresh item p [] new h f =
      let total : totals_in k currency (add_total p.moneda p.monto fresh.totales)
          ≡ amount_in k currency (p.moneda, p.monto) =
        ap (λ t. totals_in k currency (add_total p.moneda p.monto t)) new.0
        ∙ totals_in-add_total k wide currency p.moneda p.monto [] h tt
        ∙ omega arith in
      (
        omega (arith, total),
        omega (arith, new.1),
        (
          add_total-Fits k wide currency p.moneda p.monto fresh.totales h
              (fits_none fresh.totales new.0),
          tt,
        ),
      )
    where
      fits_none : (t : Totals) → t ≡ [] → All (Fits k) t
      fits_none [] e = tt
      fits_none (x ∷ t) e = absurd (cc)
  groups_in-put key fresh item p (g ∷ groups) new h f = elim (Bool-cases (key_eq g.0 key)) [
    | inl same ↦
        let total : totals_in k currency (add_total p.moneda p.monto g.1.totales)
            ≡ totals_in k currency g.1.totales + amount_in k currency (p.moneda, p.monto) =
          totals_in-add_total k wide currency p.moneda p.monto g.1.totales h f.0 in
        rw same (
          omega (arith, total),
          omega arith,
          (add_total-Fits k wide currency p.moneda p.monto g.1.totales h f.0, f.1),
        )
    | inr other ↦
        let (total, number, fits) = groups_in-put key fresh item p groups new h f.1 in
        rw other (omega (arith, total), omega (arith, number), (f.0, fits))
  ]

  pub group_from-adds :
      (u : Unicode) (providers : List Provider) (groups : Groups) (payments : List Payment)
      → All (FitsPayment k) payments
      → All (FitsGroup k) groups
      → (groups_in k currency (group_from u providers groups payments)
          ≡ groups_in k currency groups + payments_in k currency payments)
        × (counted (group_from u providers groups payments) ≡ counted groups + length payments)
        × All (FitsGroup k) (group_from u providers groups payments)
  unfolding group_from
  group_from-adds u providers groups [] h f = (omega arith, omega arith, f)
  group_from-adds u providers groups (p ∷ payments) h f =
      let provider : Option Provider = provider_of u providers p in
      let (total, number, fits) =
        groups_in-put (group_key u provider p.destino.ruc p.destino.titular) (new_group provider p)
          (payment_item u (display_name provider p) p) p groups (refl, refl) h.0 f in
      let (total_rest, number_rest, fits_rest) =
        group_from-adds u providers (add_payment u providers p groups) payments h.1 fits in
      (omega (arith, total, total_rest), omega (arith, number, number_rest), fits_rest)

-- How many payments pass a test
module _ (test : Payment → Bool) where
  tally-put :
      (key : GroupKey) (fresh : Group) (item : PaymentItem) (groups : Groups)
      → fresh.pagos ≡ []
      → tally test (put_payment key fresh item item.payment groups)
        ≡ tally test groups + (if test item.payment then 1 else 0)
  unfolding put_payment
  tally-put key fresh item [] new =
      ap (λ t. item_count test (t ++ (item ∷ [])) + 0) new ∙ ground arith
  tally-put key fresh item (g ∷ groups) new = elim (Bool-cases (key_eq g.0 key)) [
    | inl same ↦ rw same (ground (arith, count-append (λ i. test i.payment) g.1.pagos (item ∷ [])))
    | inr other ↦ rw other (ground (arith, tally-put key fresh item groups new))
  ]

  pub tally-group_from :
      (u : Unicode) (providers : List Provider) (groups : Groups) (payments : List Payment)
      → tally test (group_from u providers groups payments)
        ≡ tally test groups + count test payments
  unfolding group_from
  tally-group_from u providers groups [] = omega arith
  tally-group_from u providers groups (p ∷ payments) =
      let provider : Option Provider = provider_of u providers p in
      let here =
        tally-put (group_key u provider p.destino.ruc p.destino.titular) (new_group provider p)
          (payment_item u (display_name provider p) p) groups refl in
      ground (arith, here, tally-group_from u providers (add_payment u providers p groups) payments)

-- A property of all payments holds of all items.
module _ (P : Payment → Type 0) where
  abbrev pub HasItem : PaymentItem → Type 0
  HasItem i = P i.payment

  abbrev pub HasItems : GroupKey × Group → Type 0
  HasItems g = All HasItem g.1.pagos

  put_payment-HasItems :
      (key : GroupKey) (fresh : Group) (item : PaymentItem) (p : Payment) (groups : Groups)
      → All HasItem fresh.pagos
      → HasItem item
      → All HasItems groups
      → All HasItems (put_payment key fresh item p groups)
  unfolding put_payment
  put_payment-HasItems key fresh item p [] f h a =
      (All-append HasItem fresh.pagos (item ∷ []) f (h, tt), tt)
  put_payment-HasItems key fresh item p (g ∷ groups) f h a = elim (Bool-cases (key_eq g.0 key)) [
    | inl same ↦ rw same (All-append HasItem g.1.pagos (item ∷ []) a.0 (h, tt), a.1)
    | inr other ↦ rw other (a.0, put_payment-HasItems key fresh item p groups f h a.1)
  ]

  pub group_from-HasItems :
      (u : Unicode) (providers : List Provider) (groups : Groups) (payments : List Payment)
      → All P payments
      → All HasItems groups
      → All HasItems (group_from u providers groups payments)
  unfolding group_from
  group_from-HasItems u providers groups [] h a = a
  group_from-HasItems u providers groups (p ∷ payments) h a =
      let provider : Option Provider = provider_of u providers p in
      group_from-HasItems u providers (add_payment u providers p groups) payments h.1 (
        put_payment-HasItems (group_key u provider p.destino.ruc p.destino.titular)
          (new_group provider p) (payment_item u (display_name provider p) p) p groups tt h.0 a)
