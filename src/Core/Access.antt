-- ===== src/Core/Access.antt =====
-- app/core/access.py: the roles and permissions of the current user.
use proyecto.Common.{ℕ, String, Bool, false, ◌&&◌, ◌||◌, Option, none, some, List, str_eq, any}

-- A row of `user_roles_links`: the role may be missing.
pub record RoleLink : Type 0 where
  pub active : Bool
  pub role_name : Option String

pub record User : Type 0 where
  pub id : ℕ
  pub user_roles_links : List RoleLink
  pub permissions : List String

abbrev pub admin_role_name : String
admin_role_name = "Admin"

abbrev names_role : String → RoleLink → Bool
names_role name link = elim link.role_name [ none ↦ false | some n ↦ link.active && str_eq n name ]

-- `ADMIN_ROLE_NAME in get_active_role_names(user)`
unfoldable pub is_admin : User → Bool
is_admin user = any (names_role admin_role_name) user.user_roles_links

abbrev pub is_asked : List String → String → Bool
is_asked codes code = any (λ c. str_eq c code) codes

-- The intersection of the user's codes with those asked for is not empty.
unfoldable pub has_any_permission : User → List String → Bool
has_any_permission user permission_codes = any (is_asked permission_codes) user.permissions

unfoldable pub has_permission : User → List String → Bool
has_permission user permission_codes = is_admin user || has_any_permission user permission_codes
