-- ===== src/Core/Scope.antt =====
-- app/core/scope.py: which companies and areas a user works in, and the filter that a query gets. A
-- frozenset is a list that is only asked for membership. A company or an area that is NULL is `none`.
pub mod Laws
mod Tests
use proyecto.Common.{
  ℕ, String, Bool, true, false, not, ◌&&◌, ◌||◌, Option, none, some, List, [], ◌∷◌, map, ◌==◌, ◌++◌,
  if◌then◌else◌, select, any,
}
use proyecto.Core.Errors.{Result, ok, err, forbidden}
use proyecto.Core.Access.{User, is_admin, has_permission}

pub record UserScope : Type 0 where
  pub unrestricted : Bool
  pub companies : List ℕ
  pub pairs : List (ℕ × ℕ)

abbrev pub nonempty {ℓ} : {A : Type ℓ} → List A → Bool
nonempty [] = false
nonempty (_ ∷ _) = true

abbrev pub is_empty : UserScope → Bool
is_empty scope =
    not scope.unrestricted && not (nonempty scope.companies) && not (nonempty scope.pairs)

abbrev pub elem : ℕ → List ℕ → Bool
elem x xs = any (λ y. y == x) xs

abbrev pub is_pair : ℕ → ℕ → ℕ × ℕ → Bool
is_pair company_id area_id p = p.0 == company_id && p.1 == area_id

abbrev pub allows_area : UserScope → ℕ → Option ℕ → Bool
allows_area scope company none = false
allows_area scope company (some area) = any (is_pair company area) scope.pairs

unfoldable pub allows : UserScope → Option ℕ → Option ℕ → Bool
allows scope none area_id = scope.unrestricted
allows scope (some company) area_id =
    scope.unrestricted || elem company scope.companies || allows_area scope company area_id

-- A row of `security.user_area_access`; without an area it covers the whole company.
pub record UserAreaAccess : Type 0 where
  pub user_id : ℕ
  pub company_id : ℕ
  pub area_id : Option ℕ
  pub active : Bool

abbrev pub is_access_of : ℕ → UserAreaAccess → Bool
is_access_of user_id row = row.user_id == user_id && row.active

abbrev pub whole_companies : List UserAreaAccess → List ℕ
whole_companies [] = []
whole_companies (row ∷ rows) =
    let companies = whole_companies rows in
    elim row.area_id [ none ↦ row.company_id ∷ companies | some area ↦ companies ]

-- The pairs of the companies that are not covered as a whole.
abbrev area_pairs : List ℕ → List UserAreaAccess → List (ℕ × ℕ)
area_pairs companies [] = []
area_pairs companies (row ∷ rows) =
    let pairs = area_pairs companies rows in
    elim row.area_id [
      | none ↦ pairs
      | some area ↦ if elem row.company_id companies then pairs else (row.company_id, area) ∷ pairs
    ]

unfoldable pub scope_of : List UserAreaAccess → UserScope
scope_of rows = record {
  unrestricted = false;
  companies = whole_companies rows;
  pairs = area_pairs (whole_companies rows) rows;
}

unfoldable pub get_user_scope : List UserAreaAccess → User → List String → UserScope
get_user_scope table user view_all_permissions =
    if is_admin user || (nonempty view_all_permissions && has_permission user view_all_permissions)
    then (record { unrestricted = true; companies = []; pairs = [] })
    else scope_of (select (is_access_of user.id) table)

-- The SQL conditions of `scope_condition`: `false()`, and `or_` of membership tests and equations. A
-- row of any table has the two columns.
pub data Atom : Type 0 where
  company_in : List ℕ → Atom
  company_area : ℕ → ℕ → Atom

pub data Condition : Type 0 where
  never : Condition
  any_of : List Atom → Condition

pub record Row : Type 0 where
  pub company_id : Option ℕ
  pub area_id : Option ℕ

abbrev pub column_eq : Option ℕ → ℕ → Bool
column_eq none x = false
column_eq (some y) x = x == y

abbrev pub column_in : Option ℕ → List ℕ → Bool
column_in none xs = false
column_in (some y) xs = elem y xs

abbrev pub pair_conditions : List (ℕ × ℕ) → List Atom
pair_conditions [] = []
pair_conditions (p ∷ pairs) = company_area p.0 p.1 ∷ pair_conditions pairs

abbrev pub company_conditions : List ℕ → List Atom
company_conditions [] = []
company_conditions (c ∷ companies) = company_in (c ∷ companies) ∷ []

-- `scope_condition`; `None` is no condition
unfoldable pub scope_condition : UserScope → Option Condition
scope_condition scope =
    if scope.unrestricted
    then none
    else if is_empty scope
    then some never
    else some (any_of (company_conditions scope.companies ++ pair_conditions scope.pairs))

-- What the database makes of a condition: a comparison with NULL is not true.
abbrev pub holds_atom : Row → Atom → Bool
holds_atom row (company_in companies) = column_in row.company_id companies
holds_atom row (company_area company area) =
    column_eq row.company_id company && column_eq row.area_id area

abbrev pub holds_for : Row → Condition → Bool
holds_for row never = false
holds_for row (any_of conditions) = any (holds_atom row) conditions

-- `apply_scope_filter`, on the rows that the query would give
unfoldable pub apply_scope_filter : UserScope → List Row → List Row
apply_scope_filter scope rows = elim (scope_condition scope) [
  | none ↦ rows
  | some condition ↦ select (λ row. holds_for row condition) rows
]

unfoldable pub assert_in_scope : UserScope → Option ℕ → Option ℕ → String → Result (Unit {0})
assert_in_scope scope company_id area_id message =
    if is_empty scope
    then ok tt
    else if allows scope company_id area_id
    then ok tt
    else err (forbidden message)
