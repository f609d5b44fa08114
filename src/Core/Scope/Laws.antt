-- ===== src/Core/Scope/Laws.antt =====
-- The scope of a user: what its rows of access allow, and what a filtered query shows.
use proyecto.Common.{
  ℕ, ◌≡◌, ◌↔◌, refl, sym, String, Bool, true, false, not, ◌&&◌, ◌||◌, Option, none, some, List, [],
  ◌∷◌, ◌++◌, arith, ◌==◌, ==_iff, select, any, Bool-cases, inl, inr, ◌⊎◌,
}
use proyecto.Core.Errors.{ok, err, forbidden}
use proyecto.Core.Access.{User, is_admin, has_permission}
use proyecto.Core.Scope.{
  UserScope, is_empty, elem, is_pair, allows, UserAreaAccess, is_access_of, whole_companies,
  area_pairs, scope_of, get_user_scope, Condition, Row, column_in, pair_conditions,
  company_conditions, scope_condition, holds_for, holds_atom, apply_scope_filter, assert_in_scope,
  nonempty,
}

any-append :
    {A : Type 0} (p : A → Bool) (xs ys : List A) → any p (xs ++ ys) ≡ (any p xs || any p ys)
any-append p [] ys = refl
any-append p (x ∷ xs) ys = ground (arith, any-append p xs ys)

-- A row of access covers a company, and an area of it or all.
abbrev pub covers : ℕ → Option ℕ → UserAreaAccess → Bool
covers company area row =
    row.company_id == company
    && elim row.area_id [ none ↦ true | some a ↦ elim area [ none ↦ false | some b ↦ a == b ] ]

-- ... the whole company, or just the area
abbrev covers_whole : ℕ → UserAreaAccess → Bool
covers_whole company row =
    row.company_id == company && elim row.area_id [ none ↦ true | some a ↦ false ]

abbrev covers_area : ℕ → ℕ → UserAreaAccess → Bool
covers_area company area row =
    row.company_id == company && elim row.area_id [ none ↦ false | some a ↦ a == area ]

elem-whole_companies :
    (company : ℕ) (rows : List UserAreaAccess)
    → elem company (whole_companies rows) ≡ any (covers_whole company) rows
elem-whole_companies company [] = refl
elem-whole_companies company (row ∷ rows) = ground (arith, elem-whole_companies company rows)

-- A pair is kept unless its company is covered as a whole.
any-area_pairs :
    (companies : List ℕ) (company area : ℕ) (rows : List UserAreaAccess)
    → any (is_pair company area) (area_pairs companies rows)
      ≡ (not (elem company companies) && any (covers_area company area) rows)
any-area_pairs companies company area [] = ground arith
any-area_pairs companies company area (row ∷ rows) = elim (Bool-cases (row.company_id == company)) [
  | inl same ↦
      ground
        (arith, (==_iff row.company_id company).0 same, any-area_pairs companies company area rows)
  | inr differs ↦ ground (arith, any-area_pairs companies company area rows)
]

any-covers-none :
    (company : ℕ) (rows : List UserAreaAccess)
    → any (covers company none) rows ≡ any (covers_whole company) rows
any-covers-none company [] = refl
any-covers-none company (row ∷ rows) = ground (arith, any-covers-none company rows)

any-covers-some :
    (company area : ℕ) (rows : List UserAreaAccess)
    → any (covers company (some area)) rows
      ≡ (any (covers_whole company) rows || any (covers_area company area) rows)
any-covers-some company area [] = refl
any-covers-some company area (row ∷ rows) = ground (arith, any-covers-some company area rows)

-- The scope of some rows of access allows a company and an area exactly when a row covers them.
pub allows-scope_of :
    (rows : List UserAreaAccess) (company : ℕ) (area : Option ℕ)
    → allows (scope_of rows) (some company) area ≡ any (covers company area) rows
unfolding allows scope_of
allows-scope_of rows company none =
    ground (arith, elem-whole_companies company rows, any-covers-none company rows)
allows-scope_of rows company (some area) = ground (
  arith,
  elem-whole_companies company rows,
  any-covers-some company area rows,
  any-area_pairs (whole_companies rows) company area rows,
)

any-company_conditions :
    (row : Row) (companies : List ℕ)
    → any (holds_atom row) (company_conditions companies) ≡ column_in row.company_id companies
any-company_conditions row [] = ground arith
any-company_conditions row (c ∷ companies) = ground arith

any-pair_conditions :
    (company : ℕ) (area : Option ℕ) (pairs : List (ℕ × ℕ))
    → any
        (holds_atom (record { company_id = some company; area_id = area }))
        (pair_conditions pairs)
      ≡ elim area [ none ↦ false | some a ↦ any (is_pair company a) pairs ]
any-pair_conditions company none [] = refl
any-pair_conditions company (some a) [] = refl
any-pair_conditions company none (p ∷ pairs) =
    ground (arith, any-pair_conditions company none pairs)
any-pair_conditions company (some a) (p ∷ pairs) =
    ground (arith, any-pair_conditions company (some a) pairs)

any-pair_conditions_null :
    (area : Option ℕ) (pairs : List (ℕ × ℕ))
    → any (holds_atom (record { company_id = none; area_id = area })) (pair_conditions pairs)
      ≡ false
any-pair_conditions_null area [] = refl
any-pair_conditions_null area (p ∷ pairs) = ground (arith, any-pair_conditions_null area pairs)

-- A row passes the condition, if there is one.
abbrev pub passes : Row → Option Condition → Bool
passes row none = true
passes row (some condition) = holds_for row condition

-- The condition of a query and the test of one object agree on every row, whatever the scope.
pub passes-scope_condition :
    (scope : UserScope) (company area : Option ℕ)
    → passes (record { company_id = company; area_id = area }) (scope_condition scope)
      ≡ allows scope company area
unfolding scope_condition allows
passes-scope_condition scope none area = ground (
  arith,
  any-append (holds_atom (record { company_id = none; area_id = area }))
      (company_conditions scope.companies) (pair_conditions scope.pairs),
  any-company_conditions (record { company_id = none; area_id = area }) scope.companies,
  any-pair_conditions_null area scope.pairs,
)
passes-scope_condition scope (some company) area = ground (
  arith,
  any-append (holds_atom (record { company_id = some company; area_id = area }))
      (company_conditions scope.companies) (pair_conditions scope.pairs),
  any-company_conditions (record { company_id = some company; area_id = area }) scope.companies,
  any-pair_conditions company area scope.pairs,
)

abbrev pub is_allowed : UserScope → Row → Bool
is_allowed scope row = allows scope row.company_id row.area_id

pub select_agree :
    {A : Type 0} (p q : A → Bool) (xs : List A) → ((x : A) → p x ≡ q x) → select p xs ≡ select q xs
select_agree p q [] h = refl
select_agree p q (x ∷ xs) h = ground (arith, h x, select_agree p q xs h)

select-true : {A : Type 0} (p : A → Bool) (xs : List A) → ((x : A) → p x ≡ true) → select p xs ≡ xs
select-true p [] h = refl
select-true p (x ∷ xs) h = ground (arith, h x, select-true p xs h)

filtered :
    (scope : UserScope) (rows : List Row) (o : Option Condition)
    → ((row : Row) → passes row o ≡ is_allowed scope row)
    → (elim o [ none ↦ rows | some condition ↦ select (λ row. holds_for row condition) rows ])
      ≡ select (is_allowed scope) rows
filtered scope rows none h = sym (select-true (is_allowed scope) rows (λ row. sym (h row)))
filtered scope rows (some condition) h =
    select_agree (λ row. holds_for row condition) (is_allowed scope) rows h

select_never : (rows : List Row) → select (λ row. false) rows ≡ []
select_never [] = refl
select_never (row ∷ rows) = select_never rows

-- A filtered query gives exactly the rows that the scope allows, in order, whatever the scope: the
-- condition that the database evaluates and the test of one object agree. For an empty scope that is
-- no row at all.
pub apply_scope_filter-allows :
    (scope : UserScope) (rows : List Row)
    → (apply_scope_filter scope rows ≡ select (is_allowed scope) rows)
      × (is_empty scope ≡ true → apply_scope_filter scope rows ≡ [])
unfolding apply_scope_filter scope_condition
apply_scope_filter-allows scope rows = (
  filtered scope rows (scope_condition scope)
      (λ row. passes-scope_condition scope row.company_id row.area_id),
  λ e. ground (arith, e, select_never rows),
)

allows_unrestricted :
    (company : ℕ) (area : Option ℕ)
    → allows (record { unrestricted = true; companies = []; pairs = [] }) (some company) area ≡ true
unfolding allows
allows_unrestricted company area = refl

-- The scope of a user allows an area of a company, or the company without an area, exactly when the
-- user is an administrator, has one of the permissions that show all, or has an active row of access
-- that covers it. A row without an area covers all of its company.
pub get_user_scope-allows :
    (table : List UserAreaAccess) (user : User) (codes : List String) (company : ℕ)
    (area : Option ℕ)
    → allows (get_user_scope table user codes) (some company) area ≡ (
        is_admin user
        || (nonempty codes && has_permission user codes)
        || any (covers company area) (select (is_access_of user.id) table))
unfolding get_user_scope
get_user_scope-allows table user codes company area =
    elim (Bool-cases (is_admin user || (nonempty codes && has_permission user codes))) [
      | inl all ↦ rw (all) (ground (arith, all, allows_unrestricted company area))
      | inr few ↦
          rw (few) (
            ground (arith, few, allows-scope_of (select (is_access_of user.id) table) company area))
    ]

-- `assert_in_scope` lets a pair pass exactly when the scope allows it or the scope is empty, and
-- otherwise raises the message.
pub assert_in_scope_iff :
    (scope : UserScope) (company area : Option ℕ) (message : String)
    → ((assert_in_scope scope company area message ≡ ok tt)
        ↔ ((is_empty scope ≡ true) ⊎ (allows scope company area ≡ true)))
      × ((assert_in_scope scope company area message ≡ ok tt)
          ⊎ (assert_in_scope scope company area message ≡ err (forbidden message)))
unfolding assert_in_scope
assert_in_scope_iff scope company area message = ((ground arith, ground arith), ground arith)

-- A user with an empty scope is shown no row of a filtered query, but passes `assert_in_scope` with
-- every pair.
pub empty_scope_passes :
    (scope : UserScope) (company area : Option ℕ) (message : String) (rows : List Row)
    → is_empty scope ≡ true
    → (apply_scope_filter scope rows ≡ []) × (assert_in_scope scope company area message ≡ ok tt)
unfolding assert_in_scope apply_scope_filter scope_condition
empty_scope_passes scope company area message rows e =
    (ground (arith, e, select_never rows), ground (arith, e))
