-- ===== src/Provisions/Responses.antt =====
-- The answers of app/api/finance/provisions/provision/provision_service.py: what a client sees of a
-- provision and of its documents.
use proyecto.Common.{ℕ, String, Bool, Option, none, some, List, map, select}
use proyecto.Common.Integers.{ℤ, ◌-ℤ◌}
use proyecto.Provisions.Model.{Currency, Provision, ProvisionDocument, ProvisionAccess, ProvisionDb}
use proyecto.Provisions.Repository.{get_currency, documents_of, access_of}
use proyecto.Provisions.Money.{
  exchange_rate_to_base, money, document_amount_base, expected_amount_base, actual_amount_base,
  actual_amount, variance_status,
}

-- The row with its rate and its amount in the base currency
pub record DocumentResponse : Type 0 where
  pub document : ProvisionDocument
  pub exchange_rate_to_base : ℕ
  pub amount_base : ℤ

abbrev pub document_response : ProvisionDb → ProvisionDocument → DocumentResponse
document_response db d = record {
  document = d;
  exchange_rate_to_base = exchange_rate_to_base (get_currency d.currency_id db);
  amount_base = document_amount_base d db;
}

-- The row with what is computed for it
pub record ProvisionSummaryResponse : Type 0 where
  pub provision : Provision
  pub currency_code : Option String
  pub base_currency_code : String
  pub expected_amount : ℤ
  pub actual_amount : ℤ
  pub variance_amount : ℤ
  pub expected_amount_base : ℤ
  pub actual_amount_base : ℤ
  pub variance_amount_base : ℤ
  pub variance_status : String

abbrev code_of : Option Currency → Option String
code_of none = none
code_of (some currency) = some currency.code

unfoldable pub to_summary_response : ProvisionDb → Provision → ProvisionSummaryResponse
to_summary_response db p =
    let expected : ℤ = money 1 p.amount in
    let actual : ℤ = actual_amount p db in
    let expected_base : ℤ = expected_amount_base p db in
    let actual_base : ℤ = actual_amount_base p db in
    record {
      provision = p;
      currency_code = code_of (get_currency p.currency_id db);
      base_currency_code = "PEN";
      expected_amount = expected;
      actual_amount = actual;
      variance_amount = money 1 (actual -ℤ expected);
      expected_amount_base = expected_base;
      actual_amount_base = actual_base;
      variance_amount_base = money 1 (actual_base -ℤ expected_base);
      variance_status = variance_status expected_base actual_base;
    }

pub record ProvisionDetailResponse : Type 0 where
  pub summary : ProvisionSummaryResponse
  pub documents : List DocumentResponse
  pub access : List ProvisionAccess

abbrev is_active : ProvisionAccess → Bool
is_active a = a.active

unfoldable pub to_detail_response : ProvisionDb → Provision → ProvisionDetailResponse
to_detail_response db p = record {
  summary = to_summary_response db p;
  documents = map (document_response db) (documents_of p.id db);
  access = select is_active (access_of p.id db);
}
