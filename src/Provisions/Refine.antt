-- ===== src/Provisions/Refine.antt =====
-- The operations of app/api/finance/provisions/provision/provision_service.py, as the router calls them,
-- keep to the life cycle of Provisions/Lifecycle.
pub mod Statuses
pub mod Runs
pub mod Records
pub mod Documents
pub mod Frozen
pub mod Atomic
pub mod Outsiders
use proyecto.Common.{
  ◌≡◌, ◌≢◌, ◌⊎◌, refl, sym, ◌∙◌, ap, String, Bool, true, false, Option, none, some, List, [], ◌∷◌,
  inl, inr, arith, ==_iff, ==-refl, ◌==◌, Bool-cases, find,
}
use mathlib.Core.Path.{subst}
use proyecto.Common.Tables.{some_inj, find-replace_first, find-replace_other}
use proyecto.Core.Access.{User}
use proyecto.Jobs.Model.{Uuid}
use proyecto.Provisions.Model.{
  pending_detail_status, ready_for_review_status, approved_status, rejected_for_edit_status,
  rejected_final_status, cancelled_status, ProvisionStatus, Provision, ProvisionDb,
}
use proyecto.Provisions.Repository.{get_provision, put_provision, get_provision_status_by_code}
use proyecto.Provisions.Access.{is_in, can_edit}
use proyecto.Provisions.Workflow.{is_closed}
use proyecto.Provisions.Lifecycle.{
  IsOpen, Step, submit, submit_again, approve, reject_for_edit, reject_final, cancel,
}
use proyecto.Provisions.Lifecycle.Effect.{
  Move, submitted, approved, returned, rejected, cancelled, Effect, unchanged, moved_to,
  row_changed, documents_changed, granted, created,
}
use proyecto.Provisions.Lifecycle.Requests.{Request, Surroundings, handle, Event, after}
use proyecto.Provisions.Lifecycle.Steps.{handle-Effect}
use proyecto.Provisions.Refine.Statuses.{
  status_of, IsCatalogue, status_of-chosen, is_in-status, closed_unless,
}

-- Where a row is, once another row or its own was written
pub put_finds :
    (db : ProvisionDb) (p q : Provision) (id : Uuid) (r : Provision)
    → get_provision p.id db ≡ some p
    → q.id ≡ p.id
    → get_provision id db ≡ some r
    → ((r ≡ p) × (get_provision id (put_provision q db) ≡ some q))
      ⊎ (get_provision id (put_provision q db) ≡ some r)
put_finds db p q id r found same h = elim (Bool-cases (q.id == id)) [
  | inl here ↦
      let e : q.id ≡ id = (==_iff q.id id).0 here in
      let at_id : get_provision id db ≡ some p =
        subst (λ i. get_provision i db ≡ some p) (sym same ∙ e) found in
      inl (
        some_inj r p (sym h ∙ at_id),
        subst (λ i. find (λ x. x.id == i) (put_provision q db).provisions ≡ some q) e
            (find-replace_first (λ x. x.id == q.id) q db.provisions p
              (subst (λ i. get_provision i db ≡ some p) (sym same) found) (==-refl q.id)),
      )
  | inr away ↦ inr (
      find-replace_other (λ x. x.id == q.id) (λ x. x.id == id) q db.provisions away
        (λ x e. ground (arith, away, e))
      ∙ h)
]

-- The other way round: a row that is found later is the written one, or it was there before.
pub found_put :
    (db : ProvisionDb) (p q : Provision) (id : Uuid) (r : Provision)
    → get_provision p.id db ≡ some p
    → q.id ≡ p.id
    → get_provision id (put_provision q db) ≡ some r
    → ((r ≡ q) × (p.id ≡ id)) ⊎ (((p.id == id) ≡ false) × (get_provision id db ≡ some r))
found_put db p q id r found same h = elim (Bool-cases (q.id == id)) [
  | inl here ↦
      let e : q.id ≡ id = (==_iff q.id id).0 here in
      let at_id : get_provision id (put_provision q db) ≡ some q =
        subst (λ i. find (λ x. x.id == i) (put_provision q db).provisions ≡ some q) e
          (find-replace_first (λ x. x.id == q.id) q db.provisions p
            (subst (λ i. get_provision i db ≡ some p) (sym same) found) (==-refl q.id)) in
      inl (some_inj r q (sym h ∙ at_id), sym same ∙ e)
  | inr away ↦ inr (
    subst (λ i. (i == id) ≡ false) same away,
    sym (
          find-replace_other (λ x. x.id == q.id) (λ x. x.id == id) q db.provisions away
            (λ x e. ground (arith, away, e)))
        ∙ h,
  )
]

-- What the abstract life cycle says of two states: every provision is still there, where it was or one
-- step further.
abbrev pub Refines : ProvisionDb → ProvisionDb → Type 0
Refines db later =
    (id : Uuid) (p : Provision) (code : String)
    → get_provision id db ≡ some p
    → status_of p db ≡ some code
    → (q : Provision) × (next : String) × (get_provision id later ≡ some q)
      × (status_of q later ≡ some next)
      × ((next ≡ code) ⊎ Step code next)

move-Step :
    (db : ProvisionDb) (p : Provision) (code next : String)
    → status_of p db ≡ some code
    → Move db p next
    → Step code next
unfolding can_edit is_closed
move-Step db p code next at (submitted open_state filled) =
    elim (Bool-cases (is_in pending_detail_status p.status_id db.statuses)) [
      | inl draft ↦
          subst (λ c. Step c ready_for_review_status)
            (sym (is_in-status pending_detail_status p db code draft at)) submit
      | inr other ↦
          subst (λ c. Step c ready_for_review_status)
            (sym (
              is_in-status rejected_for_edit_status p db code (ground (arith, open_state, other))
                at))
            submit_again
    ]
move-Step db p code next at (approved ready) =
    subst (λ c. Step c approved_status)
      (sym (is_in-status ready_for_review_status p db code ready at)) approve
move-Step db p code next at (returned ready) =
    subst (λ c. Step c rejected_for_edit_status)
      (sym (is_in-status ready_for_review_status p db code ready at)) reject_for_edit
move-Step db p code next at (rejected ready) =
    subst (λ c. Step c rejected_final_status)
      (sym (is_in-status ready_for_review_status p db code ready at)) reject_final
move-Step db p code next at (cancelled still_open) = cancel code (
  closed_unless approved_status p db code at (ground (arith, still_open)),
  closed_unless rejected_final_status p db code at (ground (arith, still_open)),
  closed_unless cancelled_status p db code at (ground (arith, still_open)),
)

pub Effect-Refines :
    (db later : ProvisionDb) → IsCatalogue db.statuses → Effect db later → Refines db later
unfolding status_of
Effect-Refines db later keys unchanged id p code found at = (p, code, found, at, inl refl)
Effect-Refines db later keys (moved_to p q next s h own chosen move (same, status, _) _) id r code
      found at =
    elim (put_finds db p q id r own same found) [
      | inl (e, now) ↦ (
        q,
        next,
        now,
        ap (λ i. status_of (record q { status_id = i }) db) status
            ∙ status_of-chosen next s q db keys chosen,
        inr (move-Step db p code next (subst (λ x. status_of x db ≡ some code) e at) move),
      )
      | inr kept ↦ (r, code, kept, at, inl refl)
    ]
Effect-Refines db later keys (row_changed p q own (same, status) _) id r code found at =
    elim (put_finds db p q id r own same found) [
      | inl (e, now) ↦ (
        q,
        code,
        now,
        ap (λ i. status_of (record q { status_id = i }) db) (status ∙ sym (ap (λ x. x.status_id) e))
            ∙ at,
        inl refl,
      )
      | inr kept ↦ (r, code, kept, at, inl refl)
    ]
Effect-Refines db later keys (documents_changed _ _ _ _ _ _) id r code found at =
    (r, code, found, at, inl refl)
Effect-Refines db later keys (granted _) id r code found at = (r, code, found, at, inl refl)
Effect-Refines db later keys (created p s documents grants h attachments new) id r code found at =
    elim (Bool-cases (p.id == id)) [
      | inl here ↦ absurd (cc (found, new.fresh, (==_iff p.id id).0 here))
      | inr away ↦ (r, code, rw away found, at, inl refl)
    ]
