-- ===== src/Payments/Groups/Cents.antt =====
-- What `_serialize_group` gives for amounts of at most two decimals: the same amounts.
use proyecto.Common.{◌*◌, ◌-◌, ◌^◌, ◌≤◌, ◌<◌, ◌≡◌, refl, some, List, [], ◌∷◌, map, All}
use proyecto.Payments.Text.{Text}
use proyecto.Payments.Amounts.{Decimal}
use proyecto.Payments.Quantize.{max_units, in_cents, quantize-in_cents}
use proyecto.Payments.Groups.{
  GroupKey, Totals, PaymentItem, Group, Groups, group_status, SerializedGroup, quantized_totals,
  with_monto, quantized_items, serialize_group, serialize_all,
}

-- At most two decimals, and not too large.
abbrev pub IsSmall : Decimal → Type 0
IsSmall d = (d.places ≤ 2) × (d.digits * 10 ^ (2 - d.places) < max_units)

abbrev pub IsSmallTotal : Text × Decimal → Type 0
IsSmallTotal t = IsSmall t.1

abbrev pub IsSmallItem : PaymentItem → Type 0
IsSmallItem i = IsSmall i.payment.monto

abbrev pub IsSmallGroup : GroupKey × Group → Type 0
IsSmallGroup g = All IsSmallTotal g.1.totales × All IsSmallItem g.1.pagos

abbrev pub cents_total : Text × Decimal → Text × Decimal
cents_total t = (t.0, in_cents t.1)

abbrev pub cents_item : PaymentItem → PaymentItem
cents_item i = with_monto (in_cents i.payment.monto) i

abbrev pub cents_group : GroupKey × Group → SerializedGroup
cents_group g = record {
  group = record g.1 { totales = map cents_total g.1.totales; pagos = map cents_item g.1.pagos };
  status = group_status g.1;
}

cents_totals :
    (totals : Totals)
    → All IsSmallTotal totals
    → quantized_totals totals ≡ some (map cents_total totals)
cents_totals [] h = refl
cents_totals (t ∷ totals) h =
    rw (quantize-in_cents t.1 (h.0).0 (h.0).1, cents_totals totals h.1) refl

cents_items :
    (items : List PaymentItem)
    → All IsSmallItem items
    → quantized_items items ≡ some (map cents_item items)
cents_items [] h = refl
cents_items (i ∷ items) h =
    rw (quantize-in_cents i.payment.monto (h.0).0 (h.0).1, cents_items items h.1) refl

pub serialize_all-cents :
    (groups : Groups)
    → All IsSmallGroup groups
    → serialize_all groups ≡ some (map cents_group groups)
unfolding serialize_all serialize_group
serialize_all-cents [] h = refl
serialize_all-cents (g ∷ groups) h =
    rw
      (
        cents_totals g.1.totales (h.0).0,
        cents_items g.1.pagos (h.0).1,
        serialize_all-cents groups h.1,
      )
      refl
