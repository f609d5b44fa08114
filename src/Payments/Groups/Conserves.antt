-- ===== src/Payments/Groups/Conserves.antt =====
-- Grouping keeps the money and the payments.
use proyecto.Common.{
  ◌≡◌, refl, ℕ, ◌≤◌, ◌<◌, Bool, true, some, List, [], ◌∷◌, map, arith, length, count, All,
}
use proyecto.Payments.Text.{Text, Unicode, text_eq}
use proyecto.Payments.Amounts.{Decimal}
use proyecto.Payments.Quantize.{max_units, in_cents}
use proyecto.Payments.Groups.{
  Provider, Payment, Totals, PaymentItem, Groups, at_scale, group_from, SerializedGroup, group,
}
use proyecto.Payments.Groups.Totals.{amount_in, totals_in, Fits}
use proyecto.Payments.Groups.Serialized.{
  item_count, tally, serialized_tally, counted, serialized_count,
}
use proyecto.Payments.Groups.Cents.{
  IsSmall, IsSmallTotal, IsSmallGroup, cents_total, cents_item, cents_group, serialize_all-cents,
}
use proyecto.Payments.Groups.Laws.{
  groups_in, serialized_in, payments_in, FitsPayment, FitsGroup, group_from-adds, tally-group_from,
  HasItems, group_from-HasItems,
}

text_eq_refl : (s : Text) → text_eq s s ≡ true
text_eq_refl [] = refl
text_eq_refl (c ∷ s) = ground (arith, text_eq_refl s)

amount_in_own : (currency : Text) (d : Decimal) → amount_in 2 currency (currency, d) ≡ at_scale 2 d
amount_in_own currency d = rw (text_eq_refl currency) refl

-- The payments have at most two decimals, and less than ten to the 28 cents in every currency.
abbrev pub AllSmall : List Payment → Type 0
AllSmall payments =
    All (FitsPayment 2) payments × ((currency : Text) → payments_in 2 currency payments < max_units)

abbrev HasSmall : Payment → Type 0
HasSmall p = IsSmall p.monto

module _ (bound : Text → ℕ) (small : (currency : Text) → bound currency < max_units) where
  payments-HasSmall :
      (payments : List Payment)
      → All (FitsPayment 2) payments
      → ((currency : Text) → payments_in 2 currency payments ≤ bound currency)
      → All HasSmall payments
  payments-HasSmall [] h le = tt
  payments-HasSmall (p ∷ payments) h le = (
    (h.0, omega (arith, le p.moneda, small p.moneda, amount_in_own p.moneda p.monto)),
    payments-HasSmall payments h.1 (λ c. omega (arith, le c)),
  )

  totals-IsSmallTotal :
      (totals : Totals)
      → All (Fits 2) totals
      → ((currency : Text) → totals_in 2 currency totals ≤ bound currency)
      → All IsSmallTotal totals
  totals-IsSmallTotal [] h le = tt
  totals-IsSmallTotal (t ∷ totals) h le = (
    (h.0, omega (arith, le t.0, small t.0, amount_in_own t.0 t.1)),
    totals-IsSmallTotal totals h.1 (λ c. omega (arith, le c)),
  )

  groups-IsSmallGroup :
      (groups : Groups)
      → All (FitsGroup 2) groups
      → All (HasItems HasSmall) groups
      → ((currency : Text) → groups_in 2 currency groups ≤ bound currency)
      → All IsSmallGroup groups
  groups-IsSmallGroup [] f h le = tt
  groups-IsSmallGroup (g ∷ groups) f h le = (
    (totals-IsSmallTotal g.1.totales f.0 (λ c. omega (arith, le c)), h.0),
    groups-IsSmallGroup groups f.1 h.1 (λ c. omega (arith, le c)),
  )

-- In cents nothing changes.
cents-totals_in :
    (currency : Text) (totals : Totals)
    → totals_in 2 currency (map cents_total totals) ≡ totals_in 2 currency totals
cents-totals_in currency [] = refl
cents-totals_in currency (t ∷ totals) = ground (arith, cents-totals_in currency totals)

cents-serialized_in :
    (currency : Text) (groups : Groups)
    → serialized_in 2 currency (map cents_group groups) ≡ groups_in 2 currency groups
cents-serialized_in currency [] = refl
cents-serialized_in currency (g ∷ groups) =
    omega (arith, cents-totals_in currency g.1.totales, cents-serialized_in currency groups)

cents-serialized_count :
    (groups : Groups) → serialized_count (map cents_group groups) ≡ counted groups
cents-serialized_count [] = refl
cents-serialized_count (g ∷ groups) = omega (arith, cents-serialized_count groups)

-- The payment with its amount written with two decimals
abbrev pub cents_payment : Payment → Payment
cents_payment p = record p { monto = in_cents p.monto }

cents-item_count :
    (test : Payment → Bool) (items : List PaymentItem)
    → item_count test (map cents_item items) ≡ item_count (λ p. test (cents_payment p)) items
cents-item_count test [] = refl
cents-item_count test (i ∷ items) = omega (arith, cents-item_count test items)

cents-serialized_tally :
    (test : Payment → Bool) (groups : Groups)
    → serialized_tally test (map cents_group groups) ≡ tally (λ p. test (cents_payment p)) groups
cents-serialized_tally test [] = refl
cents-serialized_tally test (g ∷ groups) =
    omega (arith, cents-item_count test g.1.pagos, cents-serialized_tally test groups)

-- What groups keep of the payments
abbrev pub HasAllPayments : List Payment → List SerializedGroup → Type 0
HasAllPayments payments grouped =
    ((currency : Text) → serialized_in 2 currency grouped ≡ payments_in 2 currency payments)
    × (serialized_count grouped ≡ length payments)
    × ((test : Payment → Bool)
        → serialized_tally test grouped ≡ count (λ p. test (cents_payment p)) payments)

-- Grouping loses no payment and no cent, where the amounts have at most two decimals and each currency
-- less than ten to the 28 cents: it does not raise, for every currency the totals of all groups
-- together are the amounts of the payments in that currency, the groups count as many payments as came
-- in, and of the payments that any test accepts the lists of the groups have as many as came in, each
-- with its amount in cents.
pub group_conserves :
    (u : Unicode) (providers : List Provider) (payments : List Payment)
    → AllSmall payments
    → (grouped : List SerializedGroup) × (group u providers payments ≡ some grouped)
      × HasAllPayments payments grouped
unfolding group
group_conserves u providers payments (fits, small) =
    let groups : Groups = group_from u providers [] payments in
    let adds = λ (c : Text). group_from-adds 2 (omega arith) c u providers [] payments fits tt in
    let bound : Text → ℕ = λ c. payments_in 2 c payments in
    let items =
      group_from-HasItems HasSmall u providers [] payments
        (payments-HasSmall bound small payments fits (λ c. omega arith)) tt in
    let all_small =
      groups-IsSmallGroup bound small groups (adds []).2 items (λ c. omega (arith, (adds c).0)) in
    (
      map cents_group groups,
      serialize_all-cents groups all_small,
      (
        λ c. omega (arith, cents-serialized_in c groups, (adds c).0),
        omega (arith, cents-serialized_count groups, (adds []).1),
        λ test. omega (
          arith,
          cents-serialized_tally test groups,
          tally-group_from (λ p. test (cents_payment p)) u providers [] payments,
        ),
      ),
    )
