-- ===== src/Provisions/Refine/Frozen.antt =====
-- What is not editable is not edited.
use proyecto.Common.{
  ◌≡◌, refl, sym, ◌∙◌, ap, true, false, none, some, inl, inr, ==_iff, ◌==◌, Bool-cases,
}
use mathlib.Core.Path.{subst}
use proyecto.Common.Tables.{some_inj}
use proyecto.Core.Access.{User}
use proyecto.Jobs.Model.{Uuid}
use proyecto.Provisions.Model.{Provision, ProvisionDb}
use proyecto.Provisions.Repository.{get_provision, documents_of}
use proyecto.Provisions.Access.{can_edit}
use proyecto.Provisions.Lifecycle.Effect.{
  SameContent, Effect, unchanged, moved_to, row_changed, documents_changed, granted, created,
}
use proyecto.Provisions.Lifecycle.Requests.{Request, Surroundings, handle}
use proyecto.Provisions.Lifecycle.Steps.{handle-Effect}
use proyecto.Provisions.Refine.{put_finds}
use proyecto.Provisions.Refine.Documents.{others_kept}

-- The provision is still there with the same content and the same documents.
abbrev pub IsFrozen : ProvisionDb → ProvisionDb → Uuid → Provision → Type 0
IsFrozen db later id p =
    (q : Provision) × (get_provision id later ≡ some q)
    × SameContent p q
    × (documents_of id later ≡ documents_of id db)

same_content : (p : Provision) → SameContent p p
same_content p = (refl, refl, refl, refl, refl, refl)

Effect-IsFrozen :
    (db later : ProvisionDb) (id : Uuid) (r : Provision)
    → Effect db later
    → get_provision id db ≡ some r
    → can_edit r db ≡ false
    → IsFrozen db later id r
Effect-IsFrozen db later id r unchanged found closed = (r, found, same_content r, refl)
Effect-IsFrozen db later id r (moved_to p q next s h own chosen move (same, status, content) _)
      found closed =
    elim (put_finds db p q id r own same found) [
      | inl (e, now) ↦ (q, now, subst (λ (x : Provision). SameContent x q) (sym e) content, refl)
      | inr kept ↦ (r, kept, same_content r, refl)
    ]
Effect-IsFrozen db later id r (row_changed p q own (same, status) (inl open_state)) found closed =
    elim (put_finds db p q id r own same found) [
      | inl (e, now) ↦
          let still : can_edit r db ≡ true = subst (λ x. can_edit x db ≡ true) (sym e) open_state in
          absurd (cc (still, closed))
      | inr kept ↦ (r, kept, same_content r, refl)
    ]
Effect-IsFrozen db later id r (row_changed p q own (same, status) (inr content)) found closed =
    elim (put_finds db p q id r own same found) [
      | inl (e, now) ↦ (q, now, subst (λ (x : Provision). SameContent x q) (sym e) content, refl)
      | inr kept ↦ (r, kept, same_content r, refl)
    ]
Effect-IsFrozen db later id r (documents_changed p documents attachments own open_state others)
      found closed =
    elim (Bool-cases (p.id == id)) [
      | inl here ↦
          let same : p ≡ r =
            some_inj p r
              (sym own ∙ ap (λ i. get_provision i db) ((==_iff p.id id).0 here) ∙ found) in
          let still : can_edit r db ≡ true = subst (λ x. can_edit x db ≡ true) same open_state in
          absurd (cc (still, closed))
      | inr away ↦ (r, found, same_content r, others id away)
    ]
Effect-IsFrozen db later id r (granted _) found closed = (r, found, same_content r, refl)
Effect-IsFrozen db later id r (created p s documents grants h attachments new) found closed =
    elim (Bool-cases (p.id == id)) [
      | inl here ↦ absurd (cc (found, new.fresh, (==_iff p.id id).0 here))
      | inr away ↦ (
        r,
        rw away found,
        same_content r,
        others_kept db p.id id documents new.its_documents away,
      )
    ]

-- What is in review or closed is not edited: a request, whoever sends it, leaves the amount, the
-- currency, the concept, the area, the date, the ticket and the documents of a provision that is not
-- editable as they are. The id for a new row is new.
pub handle-IsFrozen :
    (w : Surroundings) (user : User) (request : Request) (db : ProvisionDb) (id : Uuid)
    (p : Provision)
    → get_provision w.new_id db ≡ none
    → get_provision id db ≡ some p
    → can_edit p db ≡ false
    → IsFrozen db (handle w user request db).1 id p
handle-IsFrozen w user request db id p fresh found closed =
    Effect-IsFrozen db _ id p (handle-Effect w user db fresh request) found closed
