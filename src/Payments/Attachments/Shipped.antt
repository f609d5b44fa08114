-- ===== src/Payments/Attachments/Shipped.antt =====
-- About the e-mails of the groups, with the names that `build_pdf_filename` gives.
use proyecto.Common.{
  ◌≡◌, refl, true, Option, some, List, [], ◌∷◌, ◌++◌, arith, All, Bool-cases, Option-cases, inl,
  inr,
}
use proyecto.Common.Counting.{All-append}
use proyecto.Payments.Text.{Text, Unicode}
use proyecto.Common.Chars.{codes}
use proyecto.Payments.Data.{or_value}
use proyecto.Payments.Filenames.{
  build_pdf_filename, build_date_label, sanitize_filename_part, titular_or,
}
use proyecto.Payments.Groups.{
  Provider, Payment, GroupKey, key_eq, PaymentItem, Group, new_group, Groups, put_payment,
  add_payment, provider_of, group_key, payment_item, display_name, group_from, SerializedGroup,
  group, quantized_items, with_monto,
}
use proyecto.Payments.Groups.Serialized.{AllMade, serialize_all-AllMade}
use proyecto.Payments.Quantize.{quantize}
use proyecto.Common.Tables.{some_inj}
use mathlib.Core.Path.{subst}
use proyecto.Payments.Attachments.Laws.{has_point, HasPoint, Ships, HasPoint-Ships}

has_point-append : (s t : Text) → has_point t ≡ true → has_point (s ++ t) ≡ true
has_point-append [] t h = h
has_point-append (c ∷ s) t h = ground (arith, has_point-append s t h)

has_point-build_pdf_filename :
    (u : Unicode) (titular fecha : Option Text)
    → has_point (build_pdf_filename u titular fecha) ≡ true
unfolding build_pdf_filename
has_point-build_pdf_filename u titular fecha =
    let dated : Text = build_date_label fecha ++ codes ".pdf" in
    has_point-append (sanitize_filename_part u (titular_or titular)) (95 ∷ dated) (
      has_point-append (95 ∷ []) dated
        (has_point-append (build_date_label fecha) (codes ".pdf") refl))

abbrev AllPoints : GroupKey × Group → Type 0
AllPoints g = All HasPoint g.1.pagos

put_payment-AllPoints :
    (key : GroupKey) (fresh : Group) (item : PaymentItem) (p : Payment) (groups : Groups)
    → All HasPoint fresh.pagos
    → HasPoint item
    → All AllPoints groups
    → All AllPoints (put_payment key fresh item p groups)
unfolding put_payment
put_payment-AllPoints key fresh item p [] f h a =
    (All-append HasPoint fresh.pagos (item ∷ []) f (h, tt), tt)
put_payment-AllPoints key fresh item p (g ∷ groups) f h a = elim (Bool-cases (key_eq g.0 key)) [
  | inl same ↦ rw same (All-append HasPoint g.1.pagos (item ∷ []) a.0 (h, tt), a.1)
  | inr other ↦ rw other (a.0, put_payment-AllPoints key fresh item p groups f h a.1)
]

group_from-AllPoints :
    (u : Unicode) (providers : List Provider) (groups : Groups) (payments : List Payment)
    → All AllPoints groups
    → All AllPoints (group_from u providers groups payments)
unfolding group_from
group_from-AllPoints u providers groups [] a = a
group_from-AllPoints u providers groups (p ∷ payments) a =
    let provider : Option Provider = provider_of u providers p in
    group_from-AllPoints u providers (add_payment u providers p groups) payments (
      put_payment-AllPoints (group_key u provider p.destino.ruc p.destino.titular)
        (new_group provider p) (payment_item u (display_name provider p) p) p groups tt
        (has_point-build_pdf_filename u
          (or_value p.destino.titular (some (display_name provider p)))
          (or_value p.operacion.fecha_proceso p.operacion.fecha_envio))
        a)

abbrev pub IsShipped : (Option Text → Option Text) → SerializedGroup → Type 0
IsShipped paths s = Ships paths s.group.pagos

-- The rounding keeps the names of the files.
quantized-HasPoint :
    (items out : List PaymentItem)
    → quantized_items items ≡ some out
    → All HasPoint items
    → All HasPoint out
quantized-HasPoint [] [] h a = tt
quantized-HasPoint [] (x ∷ out) h a = absurd (cc)
quantized-HasPoint (i ∷ items) out h a = elim (Option-cases (quantize i.payment.monto)) [
  | inl raised ↦ absurd (let bad = rw raised at h in cc)
  | inr (monto, fine) ↦ elim (Option-cases (quantized_items items)) [
    | inl raised ↦ absurd (let bad = rw (fine, raised) at h in cc)
    | inr (rest, made) ↦
        let same : some (with_monto monto i ∷ rest) ≡ some out = rw (fine, made) at h in
        subst (All HasPoint) (some_inj (with_monto monto i ∷ rest) out same)
          (a.0, quantized-HasPoint items rest made a.1)
  ]
]

-- Each group that `group` makes can be sent: the list of the files of its e-mail is always built, for
-- the search for a free name ends each time; it has the stored file of each payment of the group that
-- has one, in order, and no two files have the same name.
pub group-Ships :
    (paths : Option Text → Option Text) (u : Unicode) (providers : List Provider)
    (payments : List Payment)
    → AllMade (IsShipped paths) (group u providers payments)
unfolding group
group-Ships paths u providers payments =
    serialize_all-AllMade (λ g. All HasPoint g.pagos) (IsShipped paths)
      (λ g totales pagos made a.
        HasPoint-Ships paths pagos (quantized-HasPoint g.pagos pagos made a))
      (group_from u providers [] payments) (group_from-AllPoints u providers [] payments tt)
