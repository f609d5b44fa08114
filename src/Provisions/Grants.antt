-- ===== src/Provisions/Grants.antt =====
-- `grant_access` of app/api/finance/provisions/provision/provision_service.py: a second grant to the
-- same user changes the first.
use proyecto.Common.{String, Bool, true, Option, none, some, [], ◌∷◌}
use proyecto.Core.Errors.{Result, ok, Exec, continue}
use proyecto.Core.Integrity.{Messages, raise_integrity_error, Refusal, committed}
use proyecto.Jobs.Model.{Uuid}
use proyecto.Provisions.Model.{Provision, ProvisionAccess, ProvisionDb}
use proyecto.Provisions.Repository.{get_provision_access, put_access, create_provision_access}
use proyecto.Provisions.Access.{ensure_can_edit_access, provision_or_404, and_then}

pub record ProvisionAccessRequest : Type 0 where
  pub user_id : Uuid
  pub access_type : String

abbrev pub new_access : Uuid → ProvisionAccessRequest → Uuid → ProvisionAccess
new_access provision_id request user_id = record {
  provision_id = provision_id;
  user_id = request.user_id;
  access_type = request.access_type;
  active = true;
  created_by = some user_id;
  updated_by = none;
}

abbrev pub changed_access : ProvisionAccessRequest → Uuid → ProvisionAccess → ProvisionAccess
changed_access request user_id existing = record existing {
  access_type = request.access_type;
  active = true;
  updated_by = some user_id;
}

abbrev pub access_conflicts : Messages
access_conflicts = ("uq_provision_access_user", "El usuario ya tiene acceso a la provision") ∷ []

abbrev pub access_references : Messages
access_references = ("provision_access_user_id_fkey", "El usuario indicado no existe") ∷ []

abbrev pub grant_to :
    (ProvisionDb → Refusal)
    → ProvisionAccessRequest
    → Uuid
    → Provision
    → Option ProvisionAccess
    → Exec ProvisionDb ProvisionAccess
grant_to refuses request user_id p none db =
    let new : ProvisionDb = create_provision_access (new_access p.id request user_id ∷ []) db in
    committed (refuses new)
      (raise_integrity_error access_conflicts access_references "No se pudo registrar el acceso")
      (new_access p.id request user_id) new db
grant_to refuses request user_id p (some existing) db = (
  ok (changed_access request user_id existing),
  put_access (changed_access request user_id existing) db,
)

abbrev pub grantable : Uuid → Uuid → Bool → ProvisionDb → Result Provision
grantable provision_id user_id can_edit_all db =
    and_then (provision_or_404 provision_id db)
      (λ p. and_then (ensure_can_edit_access p user_id can_edit_all db) (λ _. ok p))

-- `existing_access` is looked up once the guards have passed.
abbrev pub grant_of :
    (ProvisionDb → Refusal)
    → ProvisionAccessRequest
    → Uuid
    → Provision
    → Exec ProvisionDb ProvisionAccess
grant_of refuses request user_id p db =
    grant_to refuses request user_id p (get_provision_access p.id request.user_id db) db

unfoldable pub grant_access :
    (ProvisionDb → Refusal)
    → Uuid
    → ProvisionAccessRequest
    → Uuid
    → Bool
    → Exec ProvisionDb ProvisionAccess
grant_access refuses provision_id request user_id can_edit_all db =
    continue (grantable provision_id user_id can_edit_all db) (grant_of refuses request user_id) db
