-- ===== src/Payments/Groups/Serialized.antt =====
-- What `_serialize_group` keeps of the groups.
use proyecto.Common.{
  ℕ, ◌+◌, ◌≡◌, refl, sym, ◌∙◌, ap, Bool, Option, none, some, List, [], ◌∷◌, count, arith, All,
  Option-cases, inl, inr,
}
use proyecto.Payments.Text.{Text}
use proyecto.Payments.Quantize.{quantize, add_first}
use proyecto.Payments.Groups.{
  Payment, GroupKey, Totals, PaymentItem, Group, Groups, group_status, SerializedGroup,
  quantized_totals, with_monto, quantized_items, serialized_with, serialize_group, serialize_all,
}

-- A property of all groups of an answer, if there is one
abbrev pub AllMade : (SerializedGroup → Type 0) → Option (List SerializedGroup) → Type 0
AllMade Q none = Unit
AllMade Q (some grouped) = All Q grouped

module _ (P : Group → Type 0) (Q : SerializedGroup → Type 0)
    (step : (g : Group) (totales : Totals) (pagos : List PaymentItem)
      → quantized_items g.pagos ≡ some pagos
      → P g
      → Q (record {
        group = record g { totales = totales; pagos = pagos };
        status = group_status g;
      })) where
  abbrev IsMade : Option SerializedGroup → Type 0
  IsMade none = Unit
  IsMade (some s) = Q s

  serialized_with-IsMade :
      (g : Group) (totales : Option Totals) (pagos : Option (List PaymentItem))
      → quantized_items g.pagos ≡ pagos
      → P g
      → IsMade (serialized_with g totales pagos)
  serialized_with-IsMade g none pagos e p = tt
  serialized_with-IsMade g (some totales) none e p = tt
  serialized_with-IsMade g (some totales) (some pagos) e p = step g totales pagos e p

  add_first-AllMade :
      (o : Option SerializedGroup) (rest : Option (List SerializedGroup))
      → IsMade o
      → AllMade Q rest
      → AllMade Q (add_first o rest)
  add_first-AllMade none rest h k = tt
  add_first-AllMade (some s) none h k = tt
  add_first-AllMade (some s) (some rest) h k = (h, k)

  pub serialize_all-AllMade :
      (groups : Groups) → All (λ g. P g.1) groups → AllMade Q (serialize_all groups)
  unfolding serialize_all serialize_group
  serialize_all-AllMade [] h = tt
  serialize_all-AllMade (g ∷ groups) h =
      add_first-AllMade
        (serialized_with g.1 (quantized_totals g.1.totales) (quantized_items g.1.pagos))
        (serialize_all groups)
        (serialized_with-IsMade g.1 (quantized_totals g.1.totales) (quantized_items g.1.pagos) refl
          h.0)
        (serialize_all-AllMade groups h.1)

-- How many payments of the groups pass a test
abbrev pub item_count : (Payment → Bool) → List PaymentItem → ℕ
item_count test items = count (λ i. test i.payment) items

abbrev pub tally : (Payment → Bool) → Groups → ℕ
tally test [] = 0
tally test (g ∷ groups) = item_count test g.1.pagos + tally test groups

abbrev pub serialized_tally : (Payment → Bool) → List SerializedGroup → ℕ
serialized_tally test [] = 0
serialized_tally test (s ∷ more) = item_count test s.group.pagos + serialized_tally test more

abbrev pub counted : Groups → ℕ
counted [] = 0
counted (g ∷ groups) = g.1.cantidad_pagos + counted groups

abbrev pub serialized_count : List SerializedGroup → ℕ
serialized_count [] = 0
serialized_count (s ∷ more) = s.group.cantidad_pagos + serialized_count more

-- A test of the file of a payment
module _ (test : Option Text → Bool) where
  abbrev pub has_file : Payment → Bool
  has_file p = test p.archivo

  quantized_items-count :
      (items out : List PaymentItem)
      → quantized_items items ≡ some out
      → item_count has_file out ≡ item_count has_file items
  quantized_items-count [] [] h = refl
  quantized_items-count [] (x ∷ out) h = absurd (cc)
  quantized_items-count (i ∷ items) out h = elim (Option-cases (quantize i.payment.monto)) [
    | inl raised ↦ absurd (let bad = rw raised at h in cc)
    | inr (monto, fine) ↦ elim (Option-cases (quantized_items items)) [
      | inl raised ↦ absurd (let bad = rw (fine, raised) at h in cc)
      | inr (rest, made) ↦
          let same : some (with_monto monto i ∷ rest) ≡ some out = rw (fine, made) at h in
          let listed : with_monto monto i ∷ rest ≡ out = cc in
          ap (item_count has_file) (sym listed)
          ∙ omega (arith, quantized_items-count items rest made)
    ]
  ]

  serialize_group-count :
      (g : GroupKey × Group) (s : SerializedGroup)
      → serialize_group g ≡ some s
      → (item_count has_file s.group.pagos ≡ item_count has_file g.1.pagos)
        × (s.group.cantidad_pagos ≡ g.1.cantidad_pagos)
  unfolding serialize_group
  serialize_group-count g s h = elim (Option-cases (quantized_totals g.1.totales)) [
    | inl raised ↦ absurd (let bad = rw raised at h in cc)
    | inr (totales, fine) ↦ elim (Option-cases (quantized_items g.1.pagos)) [
      | inl raised ↦ absurd (let bad = rw (fine, raised) at h in cc)
      | inr (pagos, made) ↦
          let out : SerializedGroup = record {
            group = record g.1 { totales = totales; pagos = pagos };
            status = group_status g.1;
          } in
          let same : some out ≡ some s = rw (fine, made) at h in
          let is_s : out ≡ s = cc in
          (
            ap (λ t. item_count has_file t.group.pagos) (sym is_s)
                ∙ quantized_items-count g.1.pagos pagos made,
            ap (λ t. t.group.cantidad_pagos) (sym is_s),
          )
    ]
  ]

  -- No payment and no file is lost.
  pub serialize_all-counts :
      (groups : Groups) (out : List SerializedGroup)
      → serialize_all groups ≡ some out
      → (serialized_tally has_file out ≡ tally has_file groups)
        × (serialized_count out ≡ counted groups)
  unfolding serialize_all
  serialize_all-counts [] [] h = (refl, refl)
  serialize_all-counts [] (x ∷ out) h = absurd (cc)
  serialize_all-counts (g ∷ groups) out h = elim (Option-cases (serialize_group g)) [
    | inl raised ↦ absurd (let bad = rw raised at h in cc)
    | inr (s, fine) ↦ elim (Option-cases (serialize_all groups)) [
      | inl raised ↦ absurd (let bad = rw (fine, raised) at h in cc)
      | inr (rest, made) ↦
          let same : some (s ∷ rest) ≡ some out = rw (fine, made) at h in
          let listed : s ∷ rest ≡ out = cc in
          let (files, number) = serialize_group-count g s fine in
          let (more_files, more_number) = serialize_all-counts groups rest made in
          (
            ap (serialized_tally has_file) (sym listed) ∙ omega (arith, files, more_files),
            ap serialized_count (sym listed) ∙ omega (arith, number, more_number),
          )
    ]
  ]
