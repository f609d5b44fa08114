-- ===== src/Core/Scope/Tests.antt =====
-- A user with one company as a whole and one area of another.
use proyecto.Common.{
  ℕ, String, ◌≡◌, refl, true, false, ◌||◌, ◌&&◌, none, some, List, [], ◌∷◌, select, any,
}
use proyecto.Core.Access.{User, is_admin, has_any_permission, has_permission}
use proyecto.Core.Scope.{
  is_empty, UserScope, UserAreaAccess, Row, allows, is_access_of, nonempty, scope_of,
  get_user_scope, scope_condition, apply_scope_filter,
}
use proyecto.Core.Scope.Laws.{covers, is_allowed, get_user_scope-allows, apply_scope_filter-allows}

abbrev clerk : User
clerk = record { id = 7; user_roles_links = []; permissions = "expenses.view" ∷ [] }

abbrev table : List UserAreaAccess
table =
    record { user_id = 7; company_id = 1; area_id = none; active = true }
    ∷ record { user_id = 7; company_id = 2; area_id = some 5; active = true }
    ∷ record { user_id = 7; company_id = 3; area_id = none; active = false }
    ∷ []

abbrev view_all : List String
view_all = "expenses.view_all" ∷ []

abbrev clerk_scope : UserScope
clerk_scope = get_user_scope table clerk view_all

abbrev row_of : ℕ → ℕ → Row
row_of company area = record { company_id = some company; area_id = some area }

abbrev rows : List Row
rows = row_of 1 9 ∷ row_of 2 5 ∷ row_of 2 6 ∷ row_of 3 5 ∷ []

apply_scope_filter_run : apply_scope_filter clerk_scope rows ≡ row_of 1 9 ∷ row_of 2 5 ∷ []
unfolding apply_scope_filter scope_condition get_user_scope scope_of is_admin has_permission
    has_any_permission
apply_scope_filter_run = refl

get_user_scope-allows_example : allows clerk_scope (some 2) (some 5) ≡ (
    is_admin clerk
    || (nonempty view_all && has_permission clerk view_all)
    || any (covers 2 (some 5)) (select (is_access_of 7) table))
get_user_scope-allows_example = get_user_scope-allows table clerk view_all 2 (some 5)

apply_scope_filter-allows_example :
    (apply_scope_filter clerk_scope rows ≡ select (is_allowed clerk_scope) rows)
    × (is_empty clerk_scope ≡ true → apply_scope_filter clerk_scope rows ≡ [])
apply_scope_filter-allows_example = apply_scope_filter-allows clerk_scope rows

abbrev no_scope : UserScope
no_scope = record { unrestricted = false; companies = []; pairs = [] }
