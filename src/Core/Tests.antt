-- ===== src/Core/Tests.antt =====
-- The switches of the modules at a small configuration.
use proyecto.Common.{◌≡◌, refl, false, none, [], ◌∷◌}
use proyecto.Core.Modules.{Switches, read_row, enabled_module_codes}

-- The environment switches the ledger off, the table the mails.
abbrev switches : Switches
switches = record {
  modules_disabled = "ledger" ∷ [];
  modules = record { code = "email"; enabled = false; disabled_reason = none } ∷ [];
}

enabled_module_codes_run :
    enabled_module_codes switches
    ≡ "sap" ∷ "payment_provider" ∷ "provisions" ∷ "sales_channel" ∷ "attendance" ∷ "analytics"
      ∷ "icg_query" ∷ []
unfolding enabled_module_codes read_row
enabled_module_codes_run = refl
