-- ===== src/Provisions/Queries/Laws.antt =====
-- Which provisions a list shows.
use proyecto.Common.{
  ◌≡◌, refl, ◌∙◌, ap, ℕ, String, Bool, true, false, ◌&&◌, ◌||◌, Option, none, some, List, [], ◌∷◌,
  arith, any, select, ◌==◌, All, Bool-cases, inl, inr,
}
use proyecto.Core.Scope.{UserScope, is_empty, allows, scope_condition}
use proyecto.Core.Scope.Laws.{passes as row_passes, passes-scope_condition, select_agree}
use proyecto.Jobs.Model.{Uuid}
use proyecto.Provisions.Model.{ready_for_review_status, Provision, ProvisionAccess, ProvisionDb}
use proyecto.Provisions.Repository.{access_of}
use proyecto.Provisions.Access.{created_it, can_view, may_view, is_in}
use proyecto.Provisions.Queries.{
  ListFilter, in_filter, is_listed, is_granted, area_condition, passes, review_filter,
  get_provision_rows, equals_if_sent, scope_row,
}

-- The grants of this user are active.
abbrev pub AllActive : Uuid → List ProvisionAccess → Type 0
AllActive user_id grants = All (λ a. is_granted user_id a ≡ true → a.active ≡ true) grants

any_active :
    (user_id : Uuid) (grants : List ProvisionAccess)
    → AllActive user_id grants
    → any (is_granted user_id) grants ≡ any (may_view user_id) grants
any_active user_id [] h = refl
any_active user_id (a ∷ grants) h = elim (Bool-cases (a.user_id == user_id)) [
  | inl his ↦ ground (arith, his, h.0 his)
  | inr other ↦ ground (arith, other, any_active user_id grants h.1)
]

-- What a user without areas of his own, to whom the route gives an empty scope, finds in the list is
-- what he may open: a provision is listed exactly if it passes the filters and he created it or holds
-- a grant. His grants on the provision are active.
pub is_listed-can_view :
    (contains : String → String → Bool) (f : ListFilter) (db : ProvisionDb) (p : Provision)
    (user_id : Uuid) (scope : UserScope)
    → f.user_id ≡ some user_id
    → f.review_queue ≡ false
    → f.scope ≡ some scope
    → is_empty scope ≡ true
    → AllActive user_id (access_of p.id db)
    → is_listed contains f db p ≡ (in_filter contains f db p && can_view p (some user_id) db)
unfolding can_view
is_listed-can_view contains f db p user_id scope his listed scoped empty active =
    let same : any (is_granted user_id) (access_of p.id db)
        ≡ any (may_view user_id) (access_of p.id db) =
      any_active user_id (access_of p.id db) active in
    rw (his, listed, scoped, empty, same)
      (ap (λ t. in_filter contains f db p && t)
        (absorb (created_it p user_id) (any (may_view user_id) (access_of p.id db))))
  where
    absorb : (a b : Bool) → (a || b || false) ≡ (a || b)
    absorb a b = ground arith

-- A scope lets a provision through if it is empty or allows its company and area.
abbrev pub scope_allows : Option UserScope → Provision → Bool
scope_allows none p = true
scope_allows (some scope) p = is_empty scope || allows scope (some p.company_id) (some p.area_id)

passes-area_condition :
    (scope : Option UserScope) (p : Provision)
    → passes (area_condition scope) p ≡ scope_allows scope p
passes-area_condition none p = refl
passes-area_condition (some scope) p = elim (Bool-cases (is_empty scope)) [
  | inl empty ↦ rw empty refl
  | inr filled ↦ rw filled (
      same (scope_condition scope)
      ∙ passes-scope_condition scope (some p.company_id) (some p.area_id))
]
  where
    same : (o : _) → passes o p ≡ row_passes (scope_row p) o
    same none = refl
    same (some condition) = refl

-- What the queue of the reviewers asks of a provision
abbrev pub is_queued : Option ℕ → Option ℕ → Option UserScope → ProvisionDb → Provision → Bool
is_queued area_id company_id scope db p =
    is_in ready_for_review_status p.status_id db.statuses
    && equals_if_sent area_id p.area_id
    && equals_if_sent company_id p.company_id
    && scope_allows scope p

is_listed-queued :
    (contains : String → String → Bool) (area_id company_id : Option ℕ) (scope : Option UserScope)
    (db : ProvisionDb) (p : Provision)
    → is_listed contains (review_filter area_id company_id scope) db p
      ≡ is_queued area_id company_id scope db p
unfolding is_in
is_listed-queued contains area_id company_id scope db p =
    ground (arith, passes-area_condition scope p)

-- The queue of the reviewers: a provision is in it exactly if it is ready for review, it passes the
-- filters of area and company, and the reviewer's scope, where he has one, is empty or covers it.
pub get_provision_rows-queued :
    (contains : String → String → Bool) (area_id company_id : Option ℕ) (scope : Option UserScope)
    (db : ProvisionDb)
    → get_provision_rows contains (review_filter area_id company_id scope) db
      ≡ select (is_queued area_id company_id scope db) db.provisions
unfolding get_provision_rows
get_provision_rows-queued contains area_id company_id scope db =
    select_agree (is_listed contains (review_filter area_id company_id scope) db)
      (is_queued area_id company_id scope db) db.provisions
      (is_listed-queued contains area_id company_id scope db)
