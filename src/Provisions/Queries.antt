-- ===== src/Provisions/Queries.antt =====
-- The reads of app/api/finance/provisions/provision/provision_service.py, and the query of its
-- repository's `get_provisions`: a provision joins its grants, each row is kept once.
pub mod Laws
use proyecto.Common.{
  ℕ, String, Bool, true, false, not, ◌&&◌, ◌||◌, Option, none, some, List, [], ◌∷◌, map, any,
  select, str_eq, ◌==◌, if◌then◌else◌,
}
use proyecto.Core.Errors.{Result, ok, err}
use proyecto.Core.Scope.{UserScope, Condition, scope_condition, is_empty, holds_for, nonempty, Row}
use proyecto.Jobs.Model.{Uuid}
use proyecto.Provisions.Model.{
  ready_for_review_status, Provision, ProvisionDocument, ProvisionAccess, ProvisionStatus,
  ProvisionDb,
}
use proyecto.Provisions.Repository.{access_of, status_row}
use proyecto.Provisions.Access.{
  created_it, provision_or_404, document_or_404, provision_of_document, and_then, ensure_view,
  has_code,
}
use proyecto.Provisions.Responses.{
  DocumentResponse, document_response, ProvisionSummaryResponse, to_summary_response,
  ProvisionDetailResponse, to_detail_response,
}

unfoldable pub get_document : Uuid → Uuid → Bool → ProvisionDb → Result DocumentResponse
get_document document_id user_id can_view_all db = and_then (document_or_404 document_id db) (λ d.
    and_then (provision_of_document d db) (λ p.
      and_then (ensure_view p (some user_id) can_view_all "No tienes acceso a este documento" db)
        (λ _. ok (document_response db d))))

unfoldable pub get_provision_detail :
    Uuid → Option Uuid → Bool → ProvisionDb → Result ProvisionDetailResponse
get_provision_detail provision_id user_id can_view_all db =
    and_then (provision_or_404 provision_id db) (λ p.
      and_then (ensure_view p user_id can_view_all "No tienes acceso a esta provision" db)
        (λ _. ok (to_detail_response db p)))

-- The filters of the list; `contains` is SQL's LIKE, whose reading of the text is the database's.
pub record ListFilter : Type 0 where
  pub search : Option String
  pub status_id : Option ℕ
  pub status_codes : List String
  pub area_id : Option ℕ
  pub company_id : Option ℕ
  pub user_id : Option Uuid
  pub review_queue : Bool
  pub scope : Option UserScope

abbrev pub equals_if_sent : Option ℕ → ℕ → Bool
equals_if_sent none column = true
equals_if_sent (some sent) column = column == sent

-- `if search:`
abbrev pub matches_search : (String → String → Bool) → Option String → String → Bool
matches_search contains none ticket_code = true
matches_search contains (some text) ticket_code = str_eq text "" || contains text ticket_code

abbrev pub is_code_in : List String → Option ProvisionStatus → Bool
is_code_in codes status = any (λ code. has_code code status) codes

abbrev pub matches_status : List String → Provision → ProvisionDb → Bool
matches_status status_codes p db =
    not (nonempty status_codes) || is_code_in status_codes (status_row p.status_id db.statuses)

abbrev pub in_filter : (String → String → Bool) → ListFilter → ProvisionDb → Provision → Bool
in_filter contains f db p =
    matches_search contains f.search p.ticket_code
    && equals_if_sent f.status_id p.status_id
    && matches_status f.status_codes p db
    && equals_if_sent f.area_id p.area_id
    && equals_if_sent f.company_id p.company_id

-- `scope is not None and not scope.is_empty`, then `scope_condition(Provision, scope)`
abbrev pub area_condition : Option UserScope → Option Condition
area_condition none = none
area_condition (some scope) = if is_empty scope then none else scope_condition scope

abbrev pub scope_row : Provision → Row
scope_row p = record { company_id = some p.company_id; area_id = some p.area_id }

-- With no condition nothing is filtered, but nothing is added to what the user sees either.
abbrev pub passes : Option Condition → Provision → Bool
passes none p = true
passes (some condition) p = holds_for (scope_row p) condition

abbrev pub adds : Option Condition → Provision → Bool
adds none p = false
adds (some condition) p = holds_for (scope_row p) condition

-- `ProvisionAccess.user_id == user_id`, of the joined grants
abbrev pub is_granted : Uuid → ProvisionAccess → Bool
is_granted user_id a = a.user_id == user_id

abbrev pub shared_with : Uuid → ProvisionDb → Provision → Bool
shared_with user_id db p = any (is_granted user_id) (access_of p.id db)

abbrev pub visible_to : Option Uuid → Bool → Option Condition → ProvisionDb → Provision → Bool
visible_to none review_queue condition db p = passes condition p
visible_to (some user_id) true condition db p = passes condition p
visible_to (some user_id) false condition db p =
    created_it p user_id || shared_with user_id db p || adds condition p

abbrev pub is_listed : (String → String → Bool) → ListFilter → ProvisionDb → Provision → Bool
is_listed contains f db p =
    in_filter contains f db p && visible_to f.user_id f.review_queue (area_condition f.scope) db p

unfoldable pub get_provision_rows :
    (String → String → Bool) → ListFilter → ProvisionDb → List Provision
get_provision_rows contains f db = select (is_listed contains f db) db.provisions

abbrev pub get_provisions :
    (String → String → Bool) → ListFilter → ProvisionDb → List ProvisionSummaryResponse
get_provisions contains f db = map (to_summary_response db) (get_provision_rows contains f db)

abbrev pub review_filter : Option ℕ → Option ℕ → Option UserScope → ListFilter
review_filter area_id company_id scope = record {
  search = none;
  status_id = none;
  status_codes = ready_for_review_status ∷ [];
  area_id = area_id;
  company_id = company_id;
  user_id = none;
  review_queue = true;
  scope = scope;
}

abbrev pub get_review_queue :
    (String → String → Bool)
    → Option ℕ
    → Option ℕ
    → Option UserScope
    → ProvisionDb
    → List ProvisionSummaryResponse
get_review_queue contains area_id company_id scope db =
    get_provisions contains (review_filter area_id company_id scope) db
