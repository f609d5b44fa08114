-- ===== src/Payments/Attachments/Unused.antt =====
-- About the loop that looks for a name that is not in use.
use mathlib.Core.List.{append_cancel_left, append_cancel_right}
use mathlib.Core.Option.{some-injective}
use proyecto.Common.{
  ℕ, zero, suc, ◌≤◌, ◌<◌, ◌≡◌, refl, sym, ◌∙◌, ap, Bool, true, false, some, List, [], ◌∷◌, length,
  arith, Bool-cases, inl, inr, if◌then◌else◌,
}
use proyecto.Payments.Text.{Text, text_eq}
use proyecto.Payments.Amounts.{number_from}
use proyecto.Payments.Amounts.Digits.{digits_of, number_from-digits_of}
use proyecto.Payments.Groups.Totals.{text_eq-eq}
use proyecto.Payments.Attachments.{contains, candidate, first_unused}

-- The names without one
without : Text → List Text → List Text
without x [] = []
without x (y ∷ names) = if text_eq y x then without x names else y ∷ without x names

length-without : (x : Text) (names : List Text) → length (without x names) ≤ length names
unfolding without
length-without x [] = omega arith
length-without x (y ∷ names) = ground (arith, length-without x names)

without_less :
    (x : Text) (names : List Text)
    → contains x names ≡ true
    → length (without x names) < length names
unfolding without
without_less x [] h = absurd (cc)
without_less x (y ∷ names) h = elim (Bool-cases (text_eq y x)) [
  | inl same ↦ rw same (omega (arith, length-without x names))
  | inr other ↦
      let rest : contains x names ≡ true = ground (arith, h, other) in
      rw other (omega (arith, without_less x names rest))
]

contains-without :
    (x z : Text) (names : List Text)
    → text_eq x z ≡ false
    → contains z (without x names) ≡ contains z names
unfolding without
contains-without x z [] h = refl
contains-without x z (y ∷ names) h = elim (Bool-cases (text_eq y x)) [
  | inl same ↦
      let e : y ≡ x = text_eq-eq y x same in
      let not_z : text_eq y z ≡ false = ap (λ t. text_eq t z) e ∙ h in
      rw (same, not_z) (contains-without x z names h)
  | inr other ↦ rw other (rw (contains-without x z names h))
]

module _ (name : ℕ → Text) where
  -- A name that no later counter gives does not matter to the search.
  first_unused-without :
      (fuel k : ℕ) (x : Text) (used : List Text)
      → ((i : ℕ) → k ≤ i → text_eq x (name i) ≡ false)
      → first_unused fuel name k (without x used) ≡ first_unused fuel name k used
  unfolding first_unused
  first_unused-without zero k x used h = refl
  first_unused-without (suc fuel) k x used h = rw (
    contains-without x (name k) used (h k (omega arith)),
    first_unused-without fuel (suc k) x used (λ i le. h i (omega (arith, le))),
  )

  -- Fuel above the number of the names in use is enough.
  pub first_unused_found :
      ((i j : ℕ) → i < j → text_eq (name i) (name j) ≡ false)
      → (fuel k : ℕ) (used : List Text) → length used < fuel
      → (found : Text) × (first_unused fuel name k used ≡ some found)
  unfolding first_unused
  first_unused_found distinct zero k used h = absurd (omega arith)
  first_unused_found distinct (suc fuel) k used h = elim (Bool-cases (contains (name k) used)) [
    | inr free ↦ (name k, rw free)
    | inl taken ↦
        let less = without_less (name k) used taken in
        let (found, e) =
          first_unused_found distinct fuel (suc k) (without (name k) used)
            (omega (arith, less, h)) in
        (
          found,
          rw taken (
              sym (
                first_unused-without fuel (suc k) (name k) used
                  (λ i le. distinct k i (omega (arith, le))))
              ∙ e),
        )
  ]

  pub first_unused-free :
      (fuel k : ℕ) (used : List Text) (found : Text)
      → first_unused fuel name k used ≡ some found
      → contains found used ≡ false
  unfolding first_unused
  first_unused-free zero k used found h = absurd (cc)
  first_unused-free (suc fuel) k used found h =
      let chosen : (b : Bool)
          → contains (name k) used ≡ b
          → first_unused (suc fuel) name k used
            ≡ (if b then first_unused fuel name (suc k) used else some (name k)) =
        λ b e. ap (λ t. if t then first_unused fuel name (suc k) used else some (name k)) e in
      elim (Bool-cases (contains (name k) used)) [
        | inl taken ↦ first_unused-free fuel (suc k) used found (sym (chosen true taken) ∙ h)
        | inr free ↦
            ap (λ t. contains t used)
              (sym (some-injective (name k) found (sym (chosen false free) ∙ h)))
            ∙ free
      ]

-- Two counters give two names.
pub candidate-distinct :
    (stem extension : Text) (i j : ℕ)
    → i < j
    → text_eq (candidate stem extension i) (candidate stem extension j) ≡ false
candidate-distinct stem extension i j less =
    elim (Bool-cases (text_eq (candidate stem extension i) (candidate stem extension j))) [
      | inr different ↦ different
      | inl same ↦
          let tails = append_cancel_left stem _ _ (text_eq-eq _ _ same) in
          let digits : digits_of (suc i) i ≡ digits_of (suc j) j =
            append_cancel_right _ _ (46 ∷ extension) (cc) in
          let equal : i ≡ j =
            sym (number_from-digits_of (suc i) i (omega arith))
            ∙ ap (number_from 0) digits
            ∙ number_from-digits_of (suc j) j (omega arith) in
          absurd (omega (arith, equal, less))
    ]
