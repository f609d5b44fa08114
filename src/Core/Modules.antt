-- ===== src/Core/Modules.antt =====
-- app/core/modules.py: which module of the system is switched off, and why. `settings.modules_disabled`
-- is a list of codes; the table `master.modules` is a list of rows.
pub mod Laws
use Prim.Native.String.{◌++◌}
use proyecto.Common.{
  String, Bool, true, false, not, ◌||◌, Option, none, some, List, [], ◌∷◌, str_eq, if◌then◌else◌,
  find, any,
}
use proyecto.Core.Errors.{Result, ok, err, module_disabled}

pub record Module : Type 0 where
  pub code : String
  pub enabled : Bool
  pub disabled_reason : Option String

-- What the switches are at: the environment and the table.
pub record Switches : Type 0 where
  pub modules_disabled : List String
  pub modules : List Module

-- `MODULE_CATALOG`, codes and names, in the order of the panel
abbrev pub module_catalog : List (String × String)
module_catalog =
    ("sap", "Integracion SAP")
    ∷ ("email", "Envio de correos")
    ∷ ("payment_provider", "Pagos a proveedores")
    ∷ ("ledger", "Libro mayor")
    ∷ ("provisions", "Provisiones")
    ∷ ("sales_channel", "Canales de venta (Last Miller)")
    ∷ ("attendance", "Asistencia")
    ∷ ("analytics", "Analitica")
    ∷ ("icg_query", "Consultas ICG (GraphQL)")
    ∷ []

abbrev pub environment_disabled_reason : String
environment_disabled_reason = "Desactivado por configuracion del entorno"

abbrev pub is_member : String → List String → Bool
is_member code [] = false
is_member code (c ∷ codes) = str_eq c code || is_member code codes

abbrev name_of : List (String × String) → String → Option String
name_of [] code = none
name_of ((c, name) ∷ rows) code =
    let found = name_of rows code in if str_eq c code then some name else found

unfoldable pub module_display_name : String → String
module_display_name code = elim (name_of module_catalog code) [ none ↦ code | some name ↦ name ]

abbrev pub has_code : String → Module → Bool
has_code code row = str_eq row.code code

unfoldable pub read_row : String → List Module → Option Module
read_row code modules = find (has_code code) modules

abbrev is_truthy : String → Bool
is_truthy text = not (str_eq text "")

-- `row.disabled_reason or "Desactivado por el administrador"`
abbrev pub reason_or_default : Option String → String
reason_or_default none = "Desactivado por el administrador"
reason_or_default (some reason) =
    if is_truthy reason then reason else "Desactivado por el administrador"

abbrev pub reason_of_row : Option Module → Option String
reason_of_row none = none
reason_of_row (some row) =
    if row.enabled then none else some (reason_or_default row.disabled_reason)

unfoldable pub get_disabled_reason : String → Switches → Option String
get_disabled_reason code switches =
    if is_member code switches.modules_disabled
    then some environment_disabled_reason
    else reason_of_row (read_row code switches.modules)

unfoldable pub is_module_enabled : String → Switches → Bool
is_module_enabled code switches = elim (get_disabled_reason code switches) [
  | none ↦ true
  | some _ ↦ false
]

abbrev pub is_on : Option Module → Bool
is_on none = true
is_on (some row) = row.enabled

-- The loop of `enabled_module_codes` over the catalogue. The table has one row for a code, so the
-- dict `rows` and `read_row` find the same.
abbrev pub enabled_from : List (String × String) → Switches → List String
enabled_from [] switches = []
enabled_from ((code, name) ∷ catalog) switches =
    let codes = enabled_from catalog switches in
    if is_member code switches.modules_disabled
    then codes
    else if is_on (read_row code switches.modules)
    then code ∷ codes
    else codes

unfoldable pub enabled_module_codes : Switches → List String
enabled_module_codes switches = enabled_from module_catalog switches

unfoldable pub require_module : String → Switches → Result (Unit {0})
require_module code switches = elim (get_disabled_reason code switches) [
  | none ↦ ok tt
  | some reason ↦ err (
      module_disabled
        ("El modulo '" ++ module_display_name code ++ "' esta desactivado: " ++ reason) code reason)
]
