-- ===== src/Provisions/Tests.antt =====
-- A provision with one document: how it goes through its states, and what is refused.
use proyecto.Common.{
  ◌≡◌, refl, ap, ℕ, ◌*◌, ◌<◌, ◌≤◌, String, true, false, ◌&&◌, Option, none, some, [], ◌∷◌, map, inl,
  inr, ◌==◌, Bool-cases, ==_iff, arith, select,
}
use mathlib.Core.Path.{subst}
use proyecto.Common.Integers.{ℤ, pos, negsuc, scale, ◌-ℤ◌}
use proyecto.Provisions.Fixtures.{
  provision_in, catalogue, tables_in, user_with, surroundings, events,
}
use proyecto.Common.Tables.{some_inj}
use proyecto.Core.Errors.{Error, http, err}
use proyecto.Core.Access.{has_permission, is_admin, has_any_permission}
use proyecto.Core.Scope.{UserScope, nonempty}
use proyecto.Jobs.Model.{Uuid}
use proyecto.Provisions.Model.{Provision, ProvisionDb, approved_status}
use proyecto.Provisions.Repository.{get_provision, documents_of}
use proyecto.Provisions.Access.{can_edit, can_edit_access, can_view, is_in}
use proyecto.Provisions.Money.{one, money, sum, exchange_rate_to_base}
use proyecto.Provisions.Money.Laws.{magnitude, money_nearest, to_summary_response-exact}
use proyecto.Provisions.Responses.{to_summary_response}
use proyecto.Provisions.Workflow.{
  submit_for_review, cancel, transition, transition_review, is_closed,
}
use proyecto.Provisions.Queries.{
  ListFilter, in_filter, is_listed, review_filter, get_provision_rows,
}
use proyecto.Provisions.Queries.Laws.{is_listed-can_view, is_queued, get_provision_rows-queued}
use proyecto.Provisions.Lifecycle.Requests.{
  post_submit, post_approve, remove_document, handle, serve, after, permissions_of,
  can_edit_all_provisions,
}
use proyecto.Provisions.Refine.{Refines}
use proyecto.Provisions.Refine.Statuses.{status_of, IsCatalogue}
use proyecto.Provisions.Refine.Runs.{AllFresh, handle-Refines, after-IsClosed}
use proyecto.Provisions.Refine.Records.{IsRecorded, latest, handle-IsRecorded}
use proyecto.Provisions.Refine.Documents.{HasDocuments, handle-HasDocuments}
use proyecto.Provisions.Refine.Frozen.{IsFrozen, handle-IsFrozen}
use proyecto.Provisions.Refine.Atomic.{handle-IsAtomic}
use proyecto.Provisions.Refine.Outsiders.{target_of, handle-outsider}

catalogue-IsCatalogue : IsCatalogue catalogue
catalogue-IsCatalogue = ((refl, (refl, (refl, tt))), ((refl, (refl, tt)), ((refl, tt), (tt, tt))))

handle-Refines_example :
    Refines (tables_in 1) (handle surroundings (user_with 7) (post_submit 1 none) (tables_in 1)).1
handle-Refines_example =
    handle-Refines surroundings (user_with 7) (post_submit 1 none) (tables_in 1)
      catalogue-IsCatalogue refl

status_after : ProvisionDb → Option ℕ
status_after db = elim (get_provision 1 db) [ none ↦ none | some p ↦ some p.status_id ]

events_run :
    (status_after (after events (tables_in 1)) ≡ some 3)
    × ((handle surroundings (user_with 8) (post_approve 1 none) (tables_in 1)).0
        ≡ err (http 400 "Solo se pueden revisar provisiones listas para revision"))
unfolding status_after after handle serve submit_for_review transition_review transition cancel
    has_permission is_admin has_any_permission permissions_of can_edit_access can_edit is_in
    is_closed
events_run = (refl, refl)

-- The row that a key finds is the only one.
only_row :
    (n : ℕ) (id : Uuid) (p : Provision)
    → get_provision id (tables_in n) ≡ some p
    → (1 ≡ id) × (provision_in n ≡ p)
only_row n id p found = elim (Bool-cases (1 == id)) [
  | inl here ↦ ((==_iff 1 id).0 here, some_inj (provision_in n) p (rw here at found))
  | inr away ↦ absurd (no_row (rw away at found))
]
  where
    no_row : none ≡ some p → ⊥
    no_row e = absurd (cc)

AllFresh-events : AllFresh events (tables_in 3)
unfolding handle serve submit_for_review transition_review transition cancel has_permission is_admin
    has_any_permission permissions_of can_edit_access can_edit is_in is_closed
AllFresh-events = (refl, (refl, (refl, tt)))

approved_row : status_of (provision_in 3) (tables_in 3) ≡ some approved_status
unfolding status_of
approved_row = refl

after-IsClosed_example :
    (q : Provision) × (get_provision 1 (after events (tables_in 3)) ≡ some q)
    × (status_of q (after events (tables_in 3)) ≡ some approved_status)
after-IsClosed_example =
    after-IsClosed events (tables_in 3) 1 (provision_in 3) approved_status catalogue-IsCatalogue
      AllFresh-events refl approved_row (inl refl)

tables-IsRecorded : (n : ℕ) → IsRecorded (tables_in n)
tables-IsRecorded n id p found =
    let (here, same) = only_row n id p found in
    (
      _,
      subst (λ i. latest i (tables_in n) ≡ latest 1 (tables_in n)) here refl,
      ap (λ r. r.status_id) same,
    )

handle-IsRecorded_example :
    IsRecorded (handle surroundings (user_with 7) (post_submit 1 none) (tables_in 1)).1
handle-IsRecorded_example =
    handle-IsRecorded surroundings (user_with 7) (post_submit 1 none) (tables_in 1) refl
      (tables-IsRecorded 1)

tables-HasDocuments : (n : ℕ) → HasDocuments (tables_in n)
tables-HasDocuments n id p code found at reviewed =
    subst (λ i. nonempty (documents_of i (tables_in n)) ≡ true) (only_row n id p found).0 refl

handle-HasDocuments_example :
    HasDocuments (handle surroundings (user_with 7) (remove_document 5) (tables_in 2)).1
handle-HasDocuments_example =
    handle-HasDocuments surroundings (user_with 7) (remove_document 5) (tables_in 2)
      catalogue-IsCatalogue refl (tables-HasDocuments 2)

in_review : can_edit (provision_in 2) (tables_in 2) ≡ false
unfolding can_edit is_in
in_review = refl

handle-IsFrozen_example :
    IsFrozen
      (tables_in 2)
      (handle surroundings (user_with 7) (remove_document 5) (tables_in 2)).1
      1
      (provision_in 2)
handle-IsFrozen_example =
    handle-IsFrozen surroundings (user_with 7) (remove_document 5) (tables_in 2) 1 (provision_in 2)
      refl refl in_review

abbrev too_early : Error
too_early = http 400 "Solo se pueden revisar provisiones listas para revision"

refused_run :
    (handle surroundings (user_with 8) (post_approve 1 none) (tables_in 1)).0 ≡ err too_early
refused_run = events_run.1

handle-IsAtomic_example :
    (handle surroundings (user_with 8) (post_approve 1 none) (tables_in 1)).1 ≡ tables_in 1
handle-IsAtomic_example =
    handle-IsAtomic surroundings (user_with 8) (post_approve 1 none) (tables_in 1) too_early
      refused_run

-- A user with the permission to edit, who has nothing to do with this provision
outsider_denied :
    (can_edit_all_provisions (user_with 9) ≡ false)
    × (can_edit_access (provision_in 1) (some 9) (tables_in 1) ≡ false)
unfolding has_permission is_admin has_any_permission can_edit_access
outsider_denied = (refl, refl)

outsider_target : target_of (remove_document 5) (tables_in 1) ≡ some 1
unfolding target_of
outsider_target = refl

handle-outsider_example :
    (detail : String) × (handle surroundings (user_with 9) (remove_document 5) (tables_in 1)
      ≡ (err (http 403 detail), tables_in 1))
handle-outsider_example =
    handle-outsider surroundings (user_with 9) (remove_document 5) (tables_in 1) 1 (provision_in 1)
      outsider_target refl outsider_denied.0 outsider_denied.1

-- Half a cent below zero goes down.
money_nearest_example :
    (2 * magnitude (negsuc 2 -ℤ scale 2 (money 2 (negsuc 2))) ≤ 2)
    × (2 * magnitude (negsuc 2 -ℤ scale 2 (money 2 (negsuc 2))) ≡ 2
        → magnitude (negsuc 2) < magnitude (scale 2 (money 2 (negsuc 2))))
money_nearest_example = money_nearest 2 (negsuc 2) (omega arith)

at_one :
    exchange_rate_to_base
      (some (record { id = 1; code = "PEN"; exchange_rate_to_base = some (pos 1000000) }))
    ≡ one
unfolding exchange_rate_to_base
at_one = refl

to_summary_response-exact_example :
    let total : ℤ = sum (map (λ d. d.amount) (documents_of 1 (tables_in 1))) in
    ((to_summary_response (tables_in 1) (provision_in 1)).actual_amount ≡ total)
    × ((to_summary_response (tables_in 1) (provision_in 1)).actual_amount_base ≡ total)
    × ((to_summary_response (tables_in 1) (provision_in 1)).variance_amount ≡ total -ℤ pos 10000)
    × ((to_summary_response (tables_in 1) (provision_in 1)).variance_amount_base
        ≡ total -ℤ pos 10000)
to_summary_response-exact_example =
    to_summary_response-exact (tables_in 1) (provision_in 1) at_one (at_one, tt)

-- The scope of a user without areas.
abbrev no_areas : UserScope
no_areas = record { unrestricted = false; companies = []; pairs = [] }

abbrev filter_for : Uuid → ListFilter
filter_for user_id = record (review_filter none none none) {
  status_codes = [];
  user_id = some user_id;
  review_queue = false;
  scope = some no_areas;
}

-- The tables where user 9 holds a grant on the provision of user 7.
abbrev shared_tables : ProvisionDb
shared_tables = record (tables_in 1) {
  access_grants =
      record {
        provision_id = 1;
        user_id = 9;
        access_type = "view";
        active = true;
        created_by = some 7;
        updated_by = none;
      }
      ∷ [];
}

is_listed-can_view_example :
    is_listed (λ text part. false) (filter_for 9) shared_tables (provision_in 1) ≡ (
      in_filter (λ text part. false) (filter_for 9) shared_tables (provision_in 1)
      && can_view (provision_in 1) (some 9) shared_tables)
is_listed-can_view_example =
    is_listed-can_view (λ text part. false) (filter_for 9) shared_tables (provision_in 1) 9 no_areas
      refl refl refl refl ((λ his. refl), tt)

listed_by_grant :
    is_listed (λ text part. false) (filter_for 9) shared_tables (provision_in 1) ≡ true
listed_by_grant = refl

unlisted_without :
    is_listed (λ text part. false) (filter_for 9) (tables_in 1) (provision_in 1) ≡ false
unlisted_without = refl

get_provision_rows-queued_example :
    get_provision_rows (λ text part. false) (review_filter none (some 2) none) (tables_in 2)
    ≡ select (is_queued none (some 2) none (tables_in 2)) (tables_in 2).provisions
get_provision_rows-queued_example =
    get_provision_rows-queued (λ text part. false) none (some 2) none (tables_in 2)
