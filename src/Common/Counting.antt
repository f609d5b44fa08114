-- ===== src/Common/Counting.antt =====
-- What a count says of the elements: all of them, none of them, and disjoint tests together.
use proyecto.Common.{
  ◌≡◌, refl, Bool, true, false, List, [], ◌∷◌, ◌++◌, arith, length, count, All, count-le-length,
}

module _ {ℓ} {A : Type ℓ} where
  abbrev pub Holds : (A → Bool) → A → Type 0
  Holds p x = p x ≡ true

  abbrev pub Fails : (A → Bool) → A → Type 0
  Fails p x = p x ≡ false

  pub count-All : (p : A → Bool) (xs : List A) → All (Holds p) xs → count p xs ≡ length xs
  count-All p [] h = refl
  count-All p (x ∷ xs) h = ground (arith, count-All p xs h.1)

  pub All-of-count : (p : A → Bool) (xs : List A) → count p xs ≡ length xs → All (Holds p) xs
  All-of-count p [] h = tt
  All-of-count p (x ∷ xs) h = (
    ground (arith, count-le-length p xs),
    All-of-count p xs (ground (arith, count-le-length p xs)),
  )

  pub count-none : (p : A → Bool) (xs : List A) → All (Fails p) xs → count p xs ≡ 0
  count-none p [] h = refl
  count-none p (x ∷ xs) h = ground (arith, count-none p xs h.1)

  pub none_of-count : (p : A → Bool) (xs : List A) → count p xs ≡ 0 → All (Fails p) xs
  none_of-count p [] h = tt
  none_of-count p (x ∷ xs) h = (ground arith, none_of-count p xs (ground arith))

  pub All-append : (P : A → Type 0) (xs ys : List A) → All P xs → All P ys → All P (xs ++ ys)
  All-append P [] ys h k = k
  All-append P (x ∷ xs) ys h k = (h.0, All-append P xs ys h.1 k)

  pub All-imp : (P Q : A → Type 0) (xs : List A) → ((x : A) → P x → Q x) → All P xs → All Q xs
  All-imp P Q [] f h = tt
  All-imp P Q (x ∷ xs) f h = (f x h.0, All-imp P Q xs f h.1)
