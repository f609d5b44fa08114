-- ===== src/Provisions/Lifecycle/Moves.antt =====
-- The effect of each change of status.
use proyecto.Common.{◌≡◌, refl, ◌∙◌, String, Bool, true, false, not, Option, none, some, inr, arith}
use mathlib.Core.Path.{subst}
use proyecto.Core.Errors.{Result, ok, err, Exec, continue}
use proyecto.Core.Scope.{nonempty}
use proyecto.Jobs.Model.{Uuid, Time}
use proyecto.Provisions.Model.{
  ready_for_review_status, approved_status, rejected_for_edit_status, rejected_final_status,
  cancelled_status, ProvisionStatus, Provision, ProvisionDb,
}
use proyecto.Provisions.Repository.{get_provision, get_provision_status_by_code, documents_of}
use proyecto.Provisions.Access.{
  is_in, can_edit, require, ensure_can_edit_access, ensure_editable, provision_or_404,
}
use proyecto.Provisions.Access.Laws.{
  ok_inj, and_then_passed, require_passed, provision_passed, editable_passed,
}
use proyecto.Provisions.Workflow.{
  get_status_or_500, status_or_500, Stamps, transition, submittable, submit_for_review, reviewable,
  transition_review, approve, reject_for_edit, reject_final, is_closed, cancellable, cancel,
  delete_provision, history_row, moved,
}
use proyecto.Provisions.Lifecycle.Effect.{
  Move, submitted, approved, returned, rejected, cancelled, Effect, unchanged, moved_to,
  row_changed,
}

-- A guard that refuses leaves the tables alone.
pub continue-Effect :
    {A B : Type 0} (db : ProvisionDb) (r : Result A) (f : A → Exec ProvisionDb B)
    → ((a : A) → r ≡ ok a → Effect db (f a db).1)
    → Effect db (continue r f db).1
continue-Effect db (ok a) f h = h a refl
continue-Effect db (err e) f h = unchanged

pub status_passed :
    (code : String) (o : Option ProvisionStatus) (s : ProvisionStatus)
    → status_or_500 code o ≡ ok s
    → o ≡ some s
status_passed code none s h = absurd (cc)
status_passed code (some row) s h = cc

transition-Effect :
    (now : Time) (code : String) (user_id : Uuid) (comments : Option String) (stamps : Stamps)
    (p : Provision) (db : ProvisionDb)
    → get_provision p.id db ≡ some p
    → Move db p code
    → Effect db (transition now code user_id comments stamps p db).1
unfolding transition
transition-Effect now code user_id comments stamps p db found move =
    continue-Effect db (get_status_or_500 code db) _ (λ s e.
      moved_to p (moved now user_id stamps s p) code s (history_row p s user_id comments) found
        (status_passed code (get_provision_status_by_code code db) s e) move
        (refl, refl, (refl, refl, refl, refl, refl, refl)) (refl, refl))

submittable_passed :
    (id user_id : Uuid) (all : Bool) (db : ProvisionDb) (q : Provision)
    → submittable id user_id all db ≡ ok q
    → (get_provision q.id db ≡ some q)
      × (can_edit q db ≡ true)
      × (nonempty (documents_of q.id db) ≡ true)
submittable_passed id user_id all db q h =
    let (p, found, h1) = and_then_passed (provision_or_404 id db) _ q h in
    let (p1, editable, h2) = and_then_passed (ensure_editable p user_id all _ db) _ q h1 in
    let (u, filled, h3) = and_then_passed (require (nonempty (documents_of p1.id db)) _) _ q h2 in
    let e : p1 ≡ q = ok_inj p1 q h3 in
    let (same, open_state, _) = editable_passed p p1 user_id all _ db editable in
    (
      subst (λ r. get_provision r.id db ≡ some r) (same ∙ e) (provision_passed id db p found),
      subst (λ r. can_edit r db ≡ true) (same ∙ e) open_state,
      subst (λ r. nonempty (documents_of r.id db) ≡ true) e (require_passed _ _ u filled),
    )

reviewable_passed :
    (id : Uuid) (db : ProvisionDb) (q : Provision)
    → reviewable id db ≡ ok q
    → (get_provision q.id db ≡ some q)
      × (is_in ready_for_review_status q.status_id db.statuses ≡ true)
reviewable_passed id db q h =
    let (p, found, h1) = and_then_passed (provision_or_404 id db) _ q h in
    let (u, ready, h2) =
      and_then_passed (require (is_in ready_for_review_status p.status_id db.statuses) _) _ q h1 in
    let e : p ≡ q = ok_inj p q h2 in
    (
      subst (λ r. get_provision r.id db ≡ some r) e (provision_passed id db p found),
      subst (λ r. is_in ready_for_review_status r.status_id db.statuses ≡ true) e
          (require_passed _ _ u ready),
    )

cancellable_passed :
    (id user_id : Uuid) (all : Bool) (db : ProvisionDb) (q : Provision)
    → cancellable id user_id all db ≡ ok q
    → (get_provision q.id db ≡ some q) × (is_closed q db ≡ false)
cancellable_passed id user_id all db q h =
    let (p, found, h1) = and_then_passed (provision_or_404 id db) _ q h in
    let (u, allowed, h2) = and_then_passed (ensure_can_edit_access p user_id all db) _ q h1 in
    let (v, still_open, h3) = and_then_passed (require (not (is_closed p db)) _) _ q h2 in
    let e : p ≡ q = ok_inj p q h3 in
    let is_open : not (is_closed p db) ≡ true = require_passed _ _ v still_open in
    (
      subst (λ r. get_provision r.id db ≡ some r) e (provision_passed id db p found),
      subst (λ r. is_closed r db ≡ false) e (ground (arith, is_open)),
    )

module _ (now : Time) (id : Uuid) (comments : Option String) (user_id : Uuid)
    (db : ProvisionDb) where
  pub submit_for_review-Effect :
      (all : Bool) → Effect db (submit_for_review now id comments user_id all db).1
  unfolding submit_for_review
  submit_for_review-Effect all = continue-Effect db (submittable id user_id all db) _ (λ p e.
      let (found, open_state, filled) = submittable_passed id user_id all db p e in
      transition-Effect now ready_for_review_status user_id _ _ p db found
        (submitted open_state filled))

  review-Effect :
      (code : String) (text : Option String) (close : Bool)
      → ((p : Provision)
          → is_in ready_for_review_status p.status_id db.statuses ≡ true
          → Move db p code)
      → Effect db (transition_review now id code user_id text close db).1
  unfolding transition_review
  review-Effect code text close move = continue-Effect db (reviewable id db) _ (λ p e.
      let (found, ready) = reviewable_passed id db p e in
      transition-Effect now code user_id text _ p db found (move p ready))

  pub approve-Effect : Effect db (approve now id comments user_id db).1
  approve-Effect = review-Effect approved_status _ true (λ p ready. approved ready)

  pub reject_for_edit-Effect : Effect db (reject_for_edit now id comments user_id db).1
  reject_for_edit-Effect =
      review-Effect rejected_for_edit_status _ false (λ p ready. returned ready)

  pub reject_final-Effect : Effect db (reject_final now id comments user_id db).1
  reject_final-Effect = review-Effect rejected_final_status _ true (λ p ready. rejected ready)

  pub cancel-Effect : (all : Bool) → Effect db (cancel now id comments user_id all db).1
  unfolding cancel
  cancel-Effect all = continue-Effect db (cancellable id user_id all db) _ (λ p e.
      let (found, still_open) = cancellable_passed id user_id all db p e in
      transition-Effect now cancelled_status user_id _ _ p db found (cancelled still_open))

  pub delete_provision-Effect : Effect db (delete_provision id db).1
  unfolding delete_provision
  delete_provision-Effect = continue-Effect db (provision_or_404 id db) _ (λ p e.
      row_changed p (record p { active = false }) (provision_passed id db p e) (refl, refl)
        (inr (refl, refl, refl, refl, refl, refl)))
