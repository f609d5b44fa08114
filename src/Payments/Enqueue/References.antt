-- ===== src/Payments/Enqueue/References.antt =====
-- About the references of the items of a job of e-mails.
use mathlib.Core.List.{append_cancel_left}
use proyecto.Common.{
  ℕ, zero, suc, ◌+◌, ◌/◌, ◌≤◌, ◌<◌, ◌≡◌, sym, ◌∙◌, ap, true, false, some, List, [], ◌∷◌, ◌++◌,
  length, length-append, take, arith, ltb, Bool-cases, inl, inr,
}
use proyecto.Common.Chars.{codes}
use proyecto.Common.Tables.{some_inj}
use proyecto.Payments.Text.{Text, text_eq}
use proyecto.Payments.Amounts.{number_from}
use proyecto.Payments.Amounts.Digits.{digits_of, number_from-digits_of}
use proyecto.Payments.Groups.Totals.{text_eq-eq}
use proyecto.Payments.Groups.{Group}
use proyecto.Payments.Attachments.{contains, first_unused}
use proyecto.Payments.Attachments.Unused.{first_unused_found, first_unused-free}
use proyecto.Payments.Enqueue.{
  numbered_reference, deduplicate_reference, build_email_job_reference, reference_for,
  provider_name,
}

numbered-distinct :
    (base : Text) (i j : ℕ)
    → i < j
    → text_eq (numbered_reference base i) (numbered_reference base j) ≡ false
numbered-distinct base i j less =
    elim (Bool-cases (text_eq (numbered_reference base i) (numbered_reference base j))) [
      | inr different ↦ different
      | inl same ↦
          let tails = append_cancel_left base _ _ (text_eq-eq _ _ same) in
          let digits : digits_of (suc i) i ≡ digits_of (suc j) j = cc in
          let equal : i ≡ j =
            sym (number_from-digits_of (suc i) i (omega arith))
            ∙ ap (number_from 0) digits
            ∙ number_from-digits_of (suc j) j (omega arith) in
          absurd (omega (arith, equal, less))
    ]

-- The search gives one of the names that it tries.
module _ (name : ℕ → Text) where
  pub first_unused-tried :
      (fuel k : ℕ) (used : List Text) (found : Text)
      → first_unused fuel name k used ≡ some found
      → (i : ℕ) × (i < k + fuel) × (found ≡ name i)
  unfolding first_unused
  first_unused-tried zero k used found h = absurd (cc)
  first_unused-tried (suc fuel) k used found h = elim (Bool-cases (contains (name k) used)) [
    | inl taken ↦
        let (i, less, e) = first_unused-tried fuel (suc k) used found (rw taken at h) in
        (i, omega (arith, less), e)
    | inr free ↦ (k, omega arith, sym (some_inj (name k) found (rw free at h)))
  ]

length-take-le : (n : ℕ) (t : Text) → length (take n t) ≤ n
length-take-le zero t = omega arith
length-take-le (suc n) [] = omega arith
length-take-le (suc n) (c ∷ t) = omega (arith, length-take-le n t)

length-digits_of : (fuel n : ℕ) → n < 100 → length (digits_of fuel n) ≤ 2
length-digits_of zero n h = omega arith
length-digits_of (suc zero) n h = ground arith
length-digits_of (suc (suc fuel)) n h = elim (Bool-cases (ltb n 10)) [
  | inl small ↦ rw small (omega arith)
  | inr big ↦
      let front : ltb (n / 10) 10 ≡ true = ground (arith, h) in rw (big, front) (omega arith)
]

length-numbered_reference :
    (base : Text) (i : ℕ) → length base ≤ 116 → i < 100 → length (numbered_reference base i) ≤ 120
length-numbered_reference base i b h =
    omega
      (arith, b, length-append base (32 ∷ 35 ∷ digits_of (suc i) i), length-digits_of (suc i) i h)

-- What the loop takes as the reference of a group
abbrev pub IsFreshKey : Group → List Text → Type 0
IsFreshKey g used =
    (key : Text) × (reference_for g used ≡ some key)
    × (contains key used ≡ false)
    × (length used < 98 → length key ≤ 120)

-- There always is one, it is new, and while there are fewer than 98 it fits the column.
pub reference_for-IsFreshKey : (g : Group) (used : List Text) → IsFreshKey g used
unfolding reference_for build_email_job_reference deduplicate_reference
reference_for-IsFreshKey g used =
    let plain = build_email_job_reference g in
    elim (Bool-cases (contains plain used)) [
      | inr free ↦ (
        plain,
        rw free,
        free,
        λ _. length-take-le 120 (codes "Enviar correo - " ++ provider_name g),
      )
      | inl taken ↦
          let base = take 116 plain in
          let (key, found) =
            first_unused_found (numbered_reference base) (numbered-distinct base)
              (suc (length used)) 2 used (omega arith) in
          let (i, less, e) =
            first_unused-tried (numbered_reference base) (suc (length used)) 2 used key found in
          (
            key,
            rw taken found,
            first_unused-free (numbered_reference base) (suc (length used)) 2 used key found,
            λ few. rw e (
                length-numbered_reference base i (length-take-le 116 plain)
                  (omega (arith, less, few))),
          )
    ]
