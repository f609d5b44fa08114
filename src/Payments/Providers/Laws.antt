-- ===== src/Payments/Providers/Laws.antt =====
-- About the table of the suppliers under any requests.
use mathlib.Core.Path.{subst}
use proyecto.Common.{
  ◌≡◌, refl, sym, ◌∙◌, ap, true, false, none, some, [], ◌∷◌, arith, All, find, Bool-cases, inl, inr,
}
use proyecto.Common.Counting.{All-imp}
use proyecto.Common.Tables.{replace_first, some_inj, All-replace_first, All_find}
use proyecto.Jobs.Model.{Uuid}
use proyecto.Payments.Text.{Text, Unicode, text_eq}
use proyecto.Payments.Groups.Totals.{text_eq-eq}
use proyecto.Payments.Providers.{
  PaymentProvider, Providers, has_id, has_tax, build_normalized_names,
}

-- Two rows have different keys and different documents.
abbrev pub Apart : PaymentProvider → PaymentProvider → Type 0
Apart p q = (¬ (p.id ≡ q.id)) × (¬ (p.tax_id ≡ q.tax_id))

abbrev pub AllApart : Providers → Type 0
AllApart [] = Unit
AllApart (p ∷ db) = All (Apart p) db × AllApart db

-- The names to compare with are those that the names of the row give.
abbrev pub IsNamed : Unicode → PaymentProvider → Type 0
IsNamed u p = p.normalized_names ≡ build_normalized_names u p.legal_name p.commercial_names

abbrev pub IsRegistry : Unicode → Providers → Type 0
IsRegistry u db = AllApart db × All (IsNamed u) db

pub text_eq_self : (t : Text) → text_eq t t ≡ true
text_eq_self [] = refl
text_eq_self (c ∷ t) = ground (arith, text_eq_self t)

-- Rows with another key have another document than this.
abbrev pub IsOwn : Uuid → Text → Providers → Type 0
IsOwn id tax_id db = All (λ q. ¬ (q.id ≡ id) → ¬ (tax_id ≡ q.tax_id)) db

other-IsOwn : (p : PaymentProvider) (db : Providers) → All (Apart p) db → IsOwn p.id p.tax_id db
other-IsOwn p db h = All-imp (Apart p) _ db (λ q a _. a.1) h

-- The document of a row is its own, and so is one that no row has.
pub found_tax-IsOwn :
    (tax_id : Text) (db : Providers) (e : PaymentProvider)
    → AllApart db
    → find (has_tax tax_id) db ≡ some e
    → IsOwn e.id tax_id db
found_tax-IsOwn tax_id [] e a f = tt
found_tax-IsOwn tax_id (p ∷ db) e a f = elim (Bool-cases (text_eq p.tax_id tax_id)) [
  | inl same ↦
      let is_p : p ≡ e = some_inj p e (rw same at f) in
      let tax : p.tax_id ≡ tax_id = text_eq-eq p.tax_id tax_id same in
      (
        λ differs. absurd (differs (ap (λ r. r.id) is_p)),
        subst (λ r. IsOwn r.id tax_id db) is_p
            (subst (λ t. IsOwn p.id t db) tax (other-IsOwn p db a.0)),
      )
  | inr other ↦ (
    λ _ e2. absurd (differ p.tax_id tax_id other (sym e2)),
    found_tax-IsOwn tax_id db e a.1 (rw other at f),
  )
]
  where
    differ : (s t : Text) → text_eq s t ≡ false → s ≡ t → ⊥
    differ s t different e =
        let yes : text_eq s t ≡ true = ap (text_eq s) (sym e) ∙ text_eq_self s in cc

pub no_tax-IsOwn :
    (id : Uuid) (tax_id : Text) (db : Providers)
    → find (has_tax tax_id) db ≡ none
    → IsOwn id tax_id db
no_tax-IsOwn id tax_id [] f = tt
no_tax-IsOwn id tax_id (p ∷ db) f = elim (Bool-cases (text_eq p.tax_id tax_id)) [
  | inl same ↦ let bad : some p ≡ none = rw same at f in absurd (cc)
  | inr other ↦ (
    λ _ e.
        let yes : text_eq p.tax_id tax_id ≡ true =
          ap (λ t. text_eq t tax_id) (sym e) ∙ text_eq_self tax_id in
        absurd (cc),
    no_tax-IsOwn id tax_id db (rw other at f),
  )
]

pub has_id-eq : (id : Uuid) (p : PaymentProvider) → has_id id p ≡ true → p.id ≡ id
has_id-eq id p h = ground (arith, h)

pub found_id-IsOwn :
    (id : Uuid) (db : Providers) (row : PaymentProvider)
    → AllApart db
    → find (has_id id) db ≡ some row
    → IsOwn id row.tax_id db
found_id-IsOwn id [] row a f = tt
found_id-IsOwn id (p ∷ db) row a f = elim (Bool-cases (has_id id p)) [
  | inl here ↦
      let is_p : p ≡ row = some_inj p row (rw here at f) in
      let key : p.id ≡ id = has_id-eq id p here in
      (
        λ differs. absurd (differs key),
        subst (λ k. IsOwn k row.tax_id db) key
            (subst (λ r. IsOwn p.id r.tax_id db) is_p (other-IsOwn p db a.0)),
      )
  | inr other ↦ (
    λ _ e. (All_find (Apart p) (has_id id) db row a.0 (rw other at f)).1 (sym e),
    found_id-IsOwn id db row a.1 (rw other at f),
  )
]

-- Changing a row keeps the rows apart, when its key stays and its document is its own.
pub replaced-AllApart :
    (id : Uuid) (new : PaymentProvider) (db : Providers)
    → new.id ≡ id
    → IsOwn id new.tax_id db
    → AllApart db
    → AllApart (replace_first (has_id id) new db)
replaced-AllApart id new [] k own a = tt
replaced-AllApart id new (p ∷ db) k own a = elim (Bool-cases (has_id id p)) [
  | inl here ↦
      let key : p.id ≡ id = has_id-eq id p here in
      rw here (apart_new id new p db k key own.1 a.0, a.1)
  | inr other ↦
      let differs : ¬ (p.id ≡ id) = λ e. ground (arith, other, e) in
      rw other (
        All-replace_first (Apart p) (has_id id) new db
            (λ e. differs (e ∙ k), λ e. own.0 differs (sym e)) a.0,
        replaced-AllApart id new db k own.1 a.1,
      )
]
  where
    apart_new :
        (id : Uuid) (new p : PaymentProvider) (db : Providers)
        → new.id ≡ id
        → p.id ≡ id
        → IsOwn id new.tax_id db
        → All (Apart p) db
        → All (Apart new) db
    apart_new id new p [] k key own a = tt
    apart_new id new p (q ∷ db) k key own a = (
      (λ e. a.0.0 (key ∙ sym k ∙ e), own.0 (λ e. a.0.0 (key ∙ sym e))),
      apart_new id new p db k key own.1 a.1,
    )
