-- ===== src/Core/Errors.antt =====
-- app/core/exceptions.py, with the exceptions of libraries that the services catch by name, and
-- the actions of a service: a method that reads and writes the database and may raise.
use proyecto.Common.{ℕ, String, Bool, true, false, Option, none, some}

pub data Error : Type 0 where
  not_found validation conflict forbidden business : String → Error
  -- message, code and reason
  module_disabled : String → String → String → Error
  -- status code and detail of `fastapi.HTTPException`
  http : ℕ → String → Error
  -- `sqlalchemy.exc.IntegrityError`
  integrity : Error
  -- Python's `ValueError` and `AttributeError`
  value_error attribute_error : String → Error
  -- `decimal.InvalidOperation`
  invalid_operation : Error
  -- Python's `OverflowError` and `TypeError`
  overflow_error : String → Error
  type_error : String → Error
  -- what the message broker raises
  broker : Error

pub data Result {ℓ} (A : Type ℓ) : Type ℓ where
  ok : A → Result A
  err : Error → Result A

-- What was committed before a `raise` stays written, so the state comes back with an error too.
abbrev pub Exec : Type 0 → Type 0 → Type 0
Exec S A = S → Result A × S

abbrev pub continue : {S A B : Type 0} → Result A → (A → Exec S B) → Exec S B
continue (ok a) f s = f a s
continue (err e) f s = (err e, s)

infixl 5 ◌>>=◌ ◌>>◌
abbrev pub ◌>>=◌ : {S A B : Type 0} → Exec S A → (A → Exec S B) → Exec S B
◌>>=◌ m f s = let (r, s') = m s in continue r f s'

abbrev pub ◌>>◌ : {S A B : Type 0} → Exec S A → Exec S B → Exec S B
m >> n = m >>= λ _. n

abbrev pub pure : {S A : Type 0} → A → Exec S A
pure a s = (ok a, s)

abbrev pub raise : {S A : Type 0} → Error → Exec S A
raise e s = (err e, s)

abbrev pub gets : {S A : Type 0} → (S → A) → Exec S A
gets f s = (ok (f s), s)

abbrev pub modify : {S : Type 0} → (S → S) → Exec S (Unit {0})
modify f s = (ok tt, f s)

-- `if test: raise error`
abbrev pub refuse_if : {S : Type 0} → Bool → Error → Exec S (Unit {0})
refuse_if true e s = (err e, s)
refuse_if false e s = (ok tt, s)

-- `get_or_404`
unfoldable pub get_or_404 {ℓ} : {A : Type ℓ} → Option A → String → Result A
get_or_404 none message = err (not_found message)
get_or_404 (some entity) message = ok entity
