-- ===== src/Core/Modules/Laws.antt =====
-- The switch of a module: the environment wins over the table, and no row means on.
use proyecto.Common.{
  String, ◌≡◌, refl, true, false, not, ◌&&◌, ◌↔◌, Option, none, some, List, [], ◌∷◌, arith, str_eq,
  eq_iff, Bool-cases, inl, inr,
}
use text.Mathlib.TextPositions.{eq_refl}
use proyecto.Core.Errors.{ok}
use proyecto.Core.Modules.{
  Module, Switches, module_catalog, is_member, read_row, get_disabled_reason, is_module_enabled,
  enabled_module_codes, require_module, enabled_from, is_on,
}

-- The decision, from the two places that can switch a module off.
enabled_lem :
    (code : String) (switches : Switches)
    → is_module_enabled code switches
      ≡ (not (is_member code switches.modules_disabled) && is_on (read_row code switches.modules))
unfolding is_module_enabled get_disabled_reason
enabled_lem code switches = ground arith

rows_on :
    (o : Option Module) → (is_on o ≡ true) ↔ ((row : Module) → o ≡ some row → row.enabled ≡ true)
rows_on none = (λ _ row e. cc, λ _. refl)
rows_on (some r) = (λ h row e. ground arith, λ h. h r refl)

pass_iff :
    (code : String) (switches : Switches)
    → (is_module_enabled code switches ≡ true) ↔ (require_module code switches ≡ ok tt)
unfolding is_module_enabled require_module
pass_iff code switches = (ground arith, ground arith)

-- A module is on exactly when the environment does not switch it off and its row, if there is one,
-- is enabled; and exactly then `require_module` lets the request pass.
pub module_enabled_iff :
    (code : String) (switches : Switches)
    → ((is_module_enabled code switches ≡ true) ↔ (
        (is_member code switches.modules_disabled ≡ false)
        × ((row : Module) → read_row code switches.modules ≡ some row → row.enabled ≡ true)))
      × ((is_module_enabled code switches ≡ true) ↔ (require_module code switches ≡ ok tt))
module_enabled_iff code switches =
    let rows = rows_on (read_row code switches.modules) in
    let both = enabled_lem code switches in
    (
      (
        λ h. (ground (arith, both), rows.0 (ground (arith, both))),
        λ h. ground (arith, both, rows.1 h.1),
      ),
      pass_iff code switches,
    )

-- `code in` the codes of a catalogue
abbrev pub codes_of : List (String × String) → List String
codes_of [] = []
codes_of ((code, name) ∷ catalog) = code ∷ codes_of catalog

member-enabled_from :
    (code : String) (switches : Switches) (catalog : List (String × String))
    → is_member code (enabled_from catalog switches)
      ≡ (is_member code (codes_of catalog) && is_module_enabled code switches)
member-enabled_from code switches [] = refl
member-enabled_from code switches ((c, name) ∷ catalog) = elim (Bool-cases (str_eq c code)) [
  | inl same ↦ rw ((eq_iff c code).0 same) (
      ground
        (arith, eq_refl code, member-enabled_from code switches catalog, enabled_lem code switches))
  | inr other ↦ ground (arith, other, member-enabled_from code switches catalog)
]

-- `/auth/me` lists a code exactly when it is of the catalogue and its module would let a request
-- pass.
pub enabled_module_codes_iff :
    (code : String) (switches : Switches)
    → is_member code (enabled_module_codes switches)
      ≡ (is_member code (codes_of module_catalog) && is_module_enabled code switches)
unfolding enabled_module_codes
enabled_module_codes_iff code switches = member-enabled_from code switches module_catalog
