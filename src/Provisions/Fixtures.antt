-- ===== src/Provisions/Fixtures.antt =====
-- A provision with one document, for the tests.
use proyecto.Common.{ℕ, true, none, some, List, [], ◌∷◌}
use proyecto.Common.Integers.{pos}
use proyecto.Core.Access.{User}
use proyecto.Provisions.Model.{ProvisionStatus, Provision, ProvisionDocument, ProvisionDb}
use proyecto.Provisions.Lifecycle.Requests.{
  post_submit, post_approve, post_cancel, Surroundings, Event,
}

abbrev pub provision_in : ℕ → Provision
provision_in status_id = record {
  id = 1;
  ticket_code = "T-1";
  description = none;
  supplier_tax_id = none;
  supplier_name = none;
  status_id = status_id;
  concept_id = 1;
  area_id = 3;
  currency_id = 1;
  amount = pos 10000;
  provision_date = 20;
  observations = none;
  active = true;
  submitted_at = none;
  reviewed_by_user_id = none;
  reviewed_at = none;
  closed_at = none;
  company_id = 2;
  created_by = some 7;
  updated_by = none;
}

abbrev pub invoice : ProvisionDocument
invoice = record {
  id = 5;
  provision_id = 1;
  document_type = none;
  document_number = none;
  document_date = none;
  description = none;
  supplier_tax_id = none;
  supplier_name = none;
  amount = pos 12050;
  currency_id = 1;
  created_by = some 7;
  updated_by = none;
}

abbrev pub catalogue : List ProvisionStatus
catalogue =
    record { id = 1; code = "PENDING_DETAIL" }
    ∷ record { id = 2; code = "READY_FOR_REVIEW" }
    ∷ record { id = 3; code = "APPROVED" }
    ∷ record { id = 4; code = "CANCELLED" }
    ∷ []

-- The one provision is in the status with this number, and its history says so.
abbrev pub tables_in : ℕ → ProvisionDb
tables_in status_id = record {
  companies = [];
  areas = [];
  currencies = record { id = 1; code = "PEN"; exchange_rate_to_base = some (pos 1000000) } ∷ [];
  statuses = catalogue;
  provisions = provision_in status_id ∷ [];
  documents = invoice ∷ [];
  access_grants = [];
  status_history =
      record {
        provision_id = 1;
        status_id = status_id;
        changed_by_user_id = some 7;
        comments = none;
      }
      ∷ [];
  attachments = [];
}

abbrev pub user_with : ℕ → User
user_with id = record {
  id = id;
  user_roles_links = [];
  permissions = "provisions.edit" ∷ "provisions.review" ∷ [];
}

abbrev pub surroundings : Surroundings
surroundings = record {
  now = 90;
  new_id = 50;
  new_ids = λ k. k;
  refuses = λ db. none;
  user_areas = [];
}

-- Submitted by its creator, approved by a reviewer, and then a cancellation that comes too late
abbrev pub events : List Event
events =
    record { surroundings = surroundings; user = user_with 7; request = post_submit 1 none }
    ∷ record { surroundings = surroundings; user = user_with 8; request = post_approve 1 none }
    ∷ record { surroundings = surroundings; user = user_with 7; request = post_cancel 1 none }
    ∷ []
