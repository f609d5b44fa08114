-- ===== src/Payments/Preview/Laws.antt =====
-- About the preview: what it counts, and when it is ready to be sent.
use proyecto.Common.{
  ◌≡◌, ◌↔◌, ◌⊎◌, refl, sym, Bool, none, ◌+◌, true, false, Option, some, List, [], ◌∷◌, map, arith,
  length, count, select, All, inl, inr,
}
use proyecto.Payments.Text.{Text, Unicode}
use proyecto.Payments.Parser.{Settings, ParseResult}
use proyecto.Payments.Groups.{
  Provider, Payment, SerializedGroup, group, group_from, Groups, group_status,
}
use mathlib.Core.Path.{subst}
use proyecto.Payments.Groups.Laws.{tally-group_from}
use proyecto.Payments.Groups.Serialized.{
  AllMade, serialize_all-AllMade, has_file, serialized_tally, serialized_count,
  serialize_all-counts,
}
use proyecto.Payments.Groups.Conserves.{AllSmall, group_conserves}
use proyecto.Payments.Providers.{Providers, provider_row, list_active_providers}
use proyecto.Payments.Preview.{
  Upload, payments_of, Preview, preview_from, grouped_preview, lacks_provider, lacks_email,
  is_processed, is_error, preview_of, parse_all, preview_files,
}
use proyecto.Payments.Preview.Receipts.{
  parse_all-HasPayment, file_count, payments_found, counted-group_from, split_length,
}

-- The supplier is known, and has an address to write to.
abbrev pub IsReady : SerializedGroup → Type 0
IsReady s = (s.group.identificado ≡ true) × (length s.group.emails_payments ≡ 0 → ⊥)

abbrev HasStatus : SerializedGroup → Type 0
HasStatus s = s.status ≡ group_status s.group

any_groups : (groups : Groups) → All (λ g. Unit {0}) groups
any_groups [] = tt
any_groups (g ∷ groups) = (tt, any_groups groups)

group-HasStatus :
    (u : Unicode) (providers : List Provider) (payments : List Payment)
    → AllMade HasStatus (group u providers payments)
unfolding group group_status
group-HasStatus u providers payments =
    serialize_all-AllMade (λ g. Unit {0}) HasStatus (λ g totales pagos made p. refl)
      (group_from u providers [] payments) (any_groups (group_from u providers [] payments))

status-IsReady :
    (s : SerializedGroup)
    → HasStatus s
    → ((lacks_provider s ≡ false) × (lacks_email s ≡ false)) ↔ IsReady s
unfolding group_status
status-IsReady s h = ground (arith, h)

All-IsReady :
    (grouped : List SerializedGroup)
    → All HasStatus grouped
    → ((count lacks_provider grouped ≡ 0) × (count lacks_email grouped ≡ 0)) ↔ All IsReady grouped
All-IsReady [] h = (λ _. tt, λ _. (refl, refl))
All-IsReady (s ∷ grouped) h =
    let here = status-IsReady s h.0 in
    let more = All-IsReady grouped h.1 in
    (
      λ c. (
        here.0 (ground (arith, c), ground (arith, c)),
        more.0 (ground (arith, c), ground (arith, c)),
      ),
      λ r.
          let (p, e) = here.1 r.0 in
          let (ps, es) = more.1 r.1 in (rw p (omega (arith, ps)), rw e (omega (arith, es))),
    )

-- What a preview tells of the results
abbrev pub Accounts : List ParseResult → Preview → Type 0
Accounts results preview =
    (preview.total_archivos ≡ length results)
    × (preview.total_archivos ≡ preview.total_procesados + preview.total_errores)
    × (serialized_count preview.proveedores ≡ preview.total_procesados)
    × ((test : Option Text → Bool)
        → serialized_tally (has_file test) preview.proveedores
          ≡ file_count test (select is_processed results))
    × ((preview.ready_to_send ≡ true)
        ↔ ((preview.total_errores ≡ 0) × All IsReady preview.proveedores))

-- The preview comes; or there is none, and the amounts have more than two decimals or are too large.
abbrev pub IsPreview : List ParseResult → Option Preview → Type 0
IsPreview results made =
    ((preview : Preview) × (made ≡ some preview) × Accounts results preview)
    ⊎ ((made ≡ none)
        × ((payments : List Payment) × (payments_of (select is_processed results) ≡ some payments)
            × (AllSmall payments → ⊥)))

preview_of-IsReady :
    (results : List ParseResult) (grouped : List SerializedGroup)
    → All HasStatus grouped
    → ((preview_of results grouped).ready_to_send ≡ true)
      ↔ ((length (select is_error results) ≡ 0) × All IsReady grouped)
preview_of-IsReady results grouped h =
    let all = All-IsReady grouped h in
    (
      λ go. (ground (arith, go), all.0 (ground (arith, go), ground (arith, go))),
      λ r. let (p, e) = all.1 r.1 in rw (r.0, p, e) refl,
    )

module _ (u : Unicode) (providers : List Provider) (results : List ParseResult)
    (payments : List Payment) (found : payments_of (select is_processed results) ≡ some payments)
    (same : length payments ≡ length (select is_processed results))
    (files : (test : Option Text → Bool)
      → count (has_file test) payments ≡ file_count test (select is_processed results)) where
  made-Accounts :
      (grouped : List SerializedGroup)
      → group u providers payments ≡ some grouped
      → All HasStatus grouped
      → Accounts results (preview_of results grouped)
  unfolding group
  made-Accounts grouped made h =
      let groups : Groups = group_from u providers [] payments in
      let kept = λ (test : Option Text → Bool). serialize_all-counts test groups grouped made in
      let number = counted-group_from u providers payments in
      (
        refl,
        split_length results,
        omega (arith, (kept (λ f. true)).1, number, same),
        λ test. omega (
          arith,
          (kept test).0,
          tally-group_from (has_file test) u providers [] payments,
          files test,
        ),
        preview_of-IsReady results grouped h,
      )

  preview_from-IsPreview :
      (made : Option (List SerializedGroup))
      → group u providers payments ≡ made
      → AllMade HasStatus made
      → IsPreview results (preview_from results made)
  preview_from-IsPreview none e h = inr (
    refl,
    (
      payments,
      found,
      λ small.
          let (grouped, made, kept) = group_conserves u providers payments small in cc (e, made),
    ),
  )
  preview_from-IsPreview (some grouped) e h =
      inl (preview_of results grouped, refl, made-Accounts grouped e h)

-- The preview of what is uploaded comes, or rounding an amount to cents raises, and then some amount has
-- more than two decimals or a currency has ten to the 28 cents or more. Each file is an error or a
-- payment; the groups count all the payments, and their lists have, of the files that any test
-- accepts, as many as were processed. It is ready to be sent exactly if there is no error and each
-- group has a known supplier with an address.
pub preview_files-Accounts :
    (u : Unicode) (settings : Settings) (db : Providers) (files : List Upload)
    → IsPreview (parse_all u settings files) (preview_files u settings db files)
unfolding preview_files
preview_files-Accounts u settings db files =
    let results = parse_all u settings files in
    let providers = map provider_row (list_active_providers db) in
    let (payments, e, same, counts) =
      payments_found results (parse_all-HasPayment u settings files) in
    subst (λ p. IsPreview results (grouped_preview u providers results p)) (sym e)
      (preview_from-IsPreview u providers results payments e same counts
        (group u providers payments) refl (group-HasStatus u providers payments))
