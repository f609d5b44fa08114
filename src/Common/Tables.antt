-- ===== src/Common/Tables.antt =====
-- A table as a list of rows: the row that a key finds, its change and its deletion. A primary key finds
-- one row at most, so the first row is the only one.
use mathlib.Core.Path.{◌≡◌, refl, sym}
use mathlib.Core.Path.{subst}
use mathlib.Core.Logic.{inl, inr}
use mathlib.Core.Bool.{Bool, true, false}
use mathlib.Core.Option.{some}
use mathlib.Core.List.{List, [], ◌∷◌, ◌++◌}
use native.Mathlib.Omega.{arith}
use proyecto.Common.Tests.{if◌then◌else◌, Bool-cases}
use proyecto.Common.Lists.{find, select, All}

module _ {ℓ} {A : Type ℓ} where
  abbrev pub replace_first : (A → Bool) → A → List A → List A
  replace_first p new [] = []
  replace_first p new (x ∷ xs) =
      let rest = replace_first p new xs in if p x then new ∷ xs else x ∷ rest

  abbrev pub remove_first : (A → Bool) → List A → List A
  remove_first p [] = []
  remove_first p (x ∷ xs) = let rest = remove_first p xs in if p x then xs else x ∷ rest

module _ {A : Type 0} where
  pub some_inj : (a b : A) → some a ≡ some b → a ≡ b
  some_inj a b e = cc

  pub find_found : (p : A → Bool) (xs : List A) (a : A) → find p xs ≡ some a → p a ≡ true
  find_found p [] a e = absurd (cc)
  find_found p (x ∷ xs) a e = elim (Bool-cases (p x)) [
    | inl here ↦ subst (λ y. p y ≡ true) (some_inj x a (rw here at e)) here
    | inr other ↦ find_found p xs a (rw other at e)
  ]

  pub find-replace_first :
      (p : A → Bool) (new : A) (xs : List A) (a : A)
      → find p xs ≡ some a
      → p new ≡ true
      → find p (replace_first p new xs) ≡ some new
  find-replace_first p new [] a e t = absurd (cc)
  find-replace_first p new (x ∷ xs) a e t = elim (Bool-cases (p x)) [
    | inl here ↦ rw (here, t) refl
    | inr other ↦ rw (other, other) (find-replace_first p new xs a (rw other at e) t)
  ]

  -- A key that the changed row has neither before nor after finds what it found.
  pub find-replace_other :
      (p q : A → Bool) (new : A) (xs : List A)
      → q new ≡ false
      → ((x : A) → p x ≡ true → q x ≡ false)
      → find q (replace_first p new xs) ≡ find q xs
  find-replace_other p q new [] n h = refl
  find-replace_other p q new (x ∷ xs) n h = elim (Bool-cases (p x)) [
    | inl here ↦ rw (here, n, h x here) refl
    | inr other ↦ ground (arith, other, find-replace_other p q new xs n h)
  ]

  pub select-replace_other :
      (p q : A → Bool) (new old : A) (xs : List A)
      → q new ≡ false
      → find p xs ≡ some old
      → q old ≡ false
      → select q (replace_first p new xs) ≡ select q xs
  select-replace_other p q new old [] n f o = refl
  select-replace_other p q new old (x ∷ xs) n f o = elim (Bool-cases (p x)) [
    | inl here ↦
        let same : x ≡ old = some_inj x old (rw here at f) in
        let away : q x ≡ false = subst (λ y. q y ≡ false) (sym same) o in rw (here, n, away) refl
    | inr other ↦ ground (arith, other, select-replace_other p q new old xs n (rw other at f) o)
  ]

  pub select-remove_other :
      (p q : A → Bool) (old : A) (xs : List A)
      → find p xs ≡ some old
      → q old ≡ false
      → select q (remove_first p xs) ≡ select q xs
  select-remove_other p q old [] f o = refl
  select-remove_other p q old (x ∷ xs) f o = elim (Bool-cases (p x)) [
    | inl here ↦
        let same : x ≡ old = some_inj x old (rw here at f) in
        let away : q x ≡ false = subst (λ y. q y ≡ false) (sym same) o in rw (here, away) refl
    | inr other ↦ ground (arith, other, select-remove_other p q old xs (rw other at f) o)
  ]

  pub select-append :
      (q : A → Bool) (xs ys : List A) → select q (xs ++ ys) ≡ select q xs ++ select q ys
  select-append q [] ys = refl
  select-append q (x ∷ xs) ys = ground (arith, select-append q xs ys)

  pub select_none : (q : A → Bool) (xs : List A) → All (λ x. q x ≡ false) xs → select q xs ≡ []
  select_none q [] h = refl
  select_none q (x ∷ xs) h = ground (arith, h.0, select_none q xs h.1)

  pub All-replace_first :
      (P : A → Type 0) (p : A → Bool) (new : A) (xs : List A)
      → P new
      → All P xs
      → All P (replace_first p new xs)
  All-replace_first P p new [] n h = tt
  All-replace_first P p new (x ∷ xs) n h = elim (Bool-cases (p x)) [
    | inl here ↦ rw here (n, h.1)
    | inr other ↦ rw other (h.0, All-replace_first P p new xs n h.1)
  ]

  pub All_find :
      (P : A → Type 0) (p : A → Bool) (xs : List A) (a : A) → All P xs → find p xs ≡ some a → P a
  All_find P p [] a h e = absurd (cc)
  All_find P p (x ∷ xs) a h e = elim (Bool-cases (p x)) [
    | inl here ↦ subst P (some_inj x a (rw here at e)) h.0
    | inr other ↦ All_find P p xs a h.1 (rw other at e)
  ]

  pub All-select : (P : A → Type 0) (q : A → Bool) (xs : List A) → All P xs → All P (select q xs)
  All-select P q [] h = tt
  All-select P q (x ∷ xs) h = elim (Bool-cases (q x)) [
    | inl here ↦ rw here (h.0, All-select P q xs h.1)
    | inr other ↦ rw other (All-select P q xs h.1)
  ]
