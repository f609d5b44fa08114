-- ===== src/Provisions/Refine/Documents.antt =====
-- No provision is reviewed without a document.
use proyecto.Common.{
  ◌≡◌, ◌⊎◌, refl, sym, ◌∙◌, ap, String, Bool, true, false, none, some, List, ◌++◌, inl, inr, arith,
  str_eq, ==_iff, ◌==◌, Bool-cases, select, All,
}
use mathlib.Core.Path.{subst}
use proyecto.Common.Counting.{All-imp}
use proyecto.Common.Tables.{some_inj, select-append, select_none}
use proyecto.Core.Access.{User}
use proyecto.Core.Scope.{nonempty}
use proyecto.Jobs.Model.{Uuid}
use proyecto.Provisions.Model.{
  pending_detail_status, ready_for_review_status, approved_status, rejected_for_edit_status,
  rejected_final_status, cancelled_status, Provision, ProvisionDocument, ProvisionDb,
}
use proyecto.Provisions.Repository.{get_provision, documents_of, is_document_of}
use proyecto.Provisions.Access.{is_in, can_edit}
use proyecto.Provisions.Lifecycle.Effect.{
  Move, submitted, approved, returned, rejected, cancelled, Effect, unchanged, moved_to,
  row_changed, documents_changed, granted, created,
}
use proyecto.Provisions.Lifecycle.Requests.{Request, Surroundings, handle}
use proyecto.Provisions.Lifecycle.Steps.{handle-Effect}
use proyecto.Provisions.Refine.{found_put}
use proyecto.Provisions.Refine.Statuses.{
  status_of, IsCatalogue, status_of-chosen, is_in-status, status_of-in,
}
use proyecto.Provisions.Refine.Runs.{differ}

-- In review, approved, or rejected for good
abbrev pub IsReviewed : String → Type 0
IsReviewed code =
    (code ≡ ready_for_review_status) ⊎ (code ≡ approved_status) ⊎ (code ≡ rejected_final_status)

abbrev pub HasDocuments : ProvisionDb → Type 0
HasDocuments db =
    (id : Uuid) (p : Provision) (code : String)
    → get_provision id db ≡ some p
    → status_of p db ≡ some code
    → IsReviewed code
    → nonempty (documents_of id db) ≡ true

not_reviewed :
    (code : String) (t : Bool)
    → str_eq code ready_for_review_status ≡ false
    → str_eq code approved_status ≡ false
    → str_eq code rejected_final_status ≡ false
    → IsReviewed code
    → t ≡ true
not_reviewed code t a b c (inl e) = absurd (differ code _ a e)
not_reviewed code t a b c (inr (inl e)) = absurd (differ code _ b e)
not_reviewed code t a b c (inr (inr e)) = absurd (differ code _ c e)

-- An editable provision is not one of those.
editable_not_reviewed :
    (p : Provision) (db : ProvisionDb) (code : String) (t : Bool)
    → can_edit p db ≡ true
    → status_of p db ≡ some code
    → IsReviewed code
    → t ≡ true
unfolding can_edit
editable_not_reviewed p db code t open_state at reviewed =
    elim (Bool-cases (is_in pending_detail_status p.status_id db.statuses)) [
      | inl draft ↦
          not_reviewed pending_detail_status t refl refl refl
            (subst IsReviewed (is_in-status pending_detail_status p db code draft at) reviewed)
      | inr other ↦ not_reviewed rejected_for_edit_status t refl refl refl (
          subst IsReviewed
            (is_in-status rejected_for_edit_status p db code (ground (arith, open_state, other)) at)
            reviewed)
    ]

-- The documents of a new provision are its own.
pub others_kept :
    (db : ProvisionDb) (id other : Uuid) (documents : List ProvisionDocument)
    → All (λ (d : ProvisionDocument). d.provision_id ≡ id) documents
    → (id == other) ≡ false
    → select (is_document_of other) (documents ++ db.documents) ≡ documents_of other db
others_kept db id other documents its away =
    select-append (is_document_of other) documents db.documents
    ∙ ap (λ ds. ds ++ documents_of other db)
        (select_none (is_document_of other) documents (
          All-imp (λ (d : ProvisionDocument). d.provision_id ≡ id)
            (λ d. is_document_of other d ≡ false) documents
            (λ d e. subst (λ i. (i == other) ≡ false) (sym e) away) its))

module _ (db : ProvisionDb) (documented : HasDocuments db) where
  Move-documented :
      (p : Provision) (code : String)
      → get_provision p.id db ≡ some p
      → Move db p code
      → IsReviewed code
      → nonempty (documents_of p.id db) ≡ true
  Move-documented p code own (submitted open_state filled) reviewed = filled
  Move-documented p code own (approved ready) reviewed =
      documented p.id p ready_for_review_status own
        (status_of-in ready_for_review_status p db ready) (inl refl)
  Move-documented p code own (returned ready) reviewed =
      not_reviewed rejected_for_edit_status _ refl refl refl reviewed
  Move-documented p code own (rejected ready) reviewed =
      documented p.id p ready_for_review_status own
        (status_of-in ready_for_review_status p db ready) (inl refl)
  Move-documented p code own (cancelled still_open) reviewed =
      not_reviewed cancelled_status _ refl refl refl reviewed

  Effect-HasDocuments :
      (later : ProvisionDb) → IsCatalogue db.statuses → Effect db later → HasDocuments later
  unfolding status_of
  Effect-HasDocuments later keys unchanged id r code found at reviewed =
      documented id r code found at reviewed
  Effect-HasDocuments later keys (moved_to p q next s h own chosen move (same, status, _) _) id r
        code found at reviewed =
      elim (found_put db p q id r own same found) [
        | inl (e, here) ↦
            let now : status_of q db ≡ some next =
              ap (λ i. status_of (record q { status_id = i }) db) status
              ∙ status_of-chosen next s q db keys chosen in
            let its : code ≡ next =
              some_inj code next (sym at ∙ ap (λ x. status_of x db) e ∙ now) in
            subst (λ i. nonempty (documents_of i db) ≡ true) here
              (Move-documented p next own move (subst IsReviewed its reviewed))
        | inr (away, before) ↦ documented id r code before at reviewed
      ]
  Effect-HasDocuments later keys (row_changed p q own (same, status) _) id r code found at
        reviewed =
      elim (found_put db p q id r own same found) [
        | inl (e, here) ↦
            subst (λ i. nonempty (documents_of i db) ≡ true) here
              (documented p.id p code own
                (ap (λ i. status_of (record p { status_id = i }) db)
                    (sym status ∙ sym (ap (λ x. x.status_id) e))
                  ∙ at)
                reviewed)
        | inr (away, before) ↦ documented id r code before at reviewed
      ]
  Effect-HasDocuments later keys (documents_changed p documents attachments own open_state kept) id
        r code found at reviewed =
      elim (Bool-cases (p.id == id)) [
        | inl here ↦
            let same : p ≡ r =
              some_inj p r
                (sym own ∙ ap (λ i. get_provision i db) ((==_iff p.id id).0 here) ∙ found) in
            editable_not_reviewed r db code _ (subst (λ x. can_edit x db ≡ true) same open_state) at
              reviewed
        | inr away ↦ ap nonempty (kept id away) ∙ documented id r code found at reviewed
      ]
  Effect-HasDocuments later keys (granted _) id r code found at reviewed =
      documented id r code found at reviewed
  Effect-HasDocuments later keys (created p s documents grants h attachments new) id r code found at
        reviewed =
      elim (Bool-cases (p.id == id)) [
        | inl here ↦
            let same : p ≡ r = some_inj p r (rw here at found) in
            let first : status_of p db ≡ some pending_detail_status =
              ap (λ i. status_of (record p { status_id = i }) db) new.in_it
              ∙ status_of-chosen pending_detail_status s p db keys new.first_status in
            let its : code ≡ pending_detail_status =
              some_inj code pending_detail_status
                (sym at ∙ ap (λ x. status_of x db) (sym same) ∙ first) in
            not_reviewed pending_detail_status _ refl refl refl (subst IsReviewed its reviewed)
        | inr away ↦
            ap nonempty (others_kept db p.id id documents new.its_documents away)
            ∙ documented id r code (rw away at found) at reviewed
      ]

-- No provision is in review, approved or rejected for good without a document: where that holds, it
-- holds after any request. The ids of the statuses are distinct, and the id for a new row is new.
pub handle-HasDocuments :
    (w : Surroundings) (user : User) (request : Request) (db : ProvisionDb)
    → IsCatalogue db.statuses
    → get_provision w.new_id db ≡ none
    → HasDocuments db
    → HasDocuments (handle w user request db).1
handle-HasDocuments w user request db keys fresh documented =
    Effect-HasDocuments db documented _ keys (handle-Effect w user db fresh request)
