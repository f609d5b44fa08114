-- ===== src/Provisions/Refine/Records.antt =====
-- The history tells the status.
use proyecto.Common.{
  ◌≡◌, refl, sym, ◌∙◌, ap, false, Option, none, some, List, ◌∷◌, inl, inr, ==_iff, ◌==◌, Bool-cases,
  find,
}
use mathlib.Core.Path.{subst}
use proyecto.Common.Tables.{some_inj, find_found}
use proyecto.Core.Access.{User}
use proyecto.Jobs.Model.{Uuid}
use proyecto.Provisions.Model.{Provision, ProvisionStatusHistory, ProvisionDb}
use proyecto.Provisions.Repository.{get_provision}
use proyecto.Provisions.Lifecycle.Effect.{
  Effect, unchanged, moved_to, row_changed, documents_changed, granted, created,
}
use proyecto.Provisions.Lifecycle.Requests.{Request, Surroundings, handle}
use proyecto.Provisions.Lifecycle.Steps.{handle-Effect}
use proyecto.Provisions.Refine.{found_put}

-- The newest entry of a provision's history
abbrev pub latest : Uuid → ProvisionDb → Option ProvisionStatusHistory
latest id db = find (λ h. h.provision_id == id) db.status_history

-- The newest entry of each provision's history is its status.
abbrev pub IsRecorded : ProvisionDb → Type 0
IsRecorded db =
    (id : Uuid) (p : Provision)
    → get_provision id db ≡ some p
    → (h : ProvisionStatusHistory) × (latest id db ≡ some h) × (h.status_id ≡ p.status_id)

pub own_id :
    (id : Uuid) (db : ProvisionDb) (p : Provision) → get_provision id db ≡ some p → p.id ≡ id
own_id id db p h = (==_iff p.id id).0 (find_found (λ q. q.id == id) db.provisions p h)

-- A new entry in front is the newest of its provision, and of no other.
latest_here :
    (h : ProvisionStatusHistory) (rest : List ProvisionStatusHistory) (id : Uuid)
    → h.provision_id ≡ id
    → find (λ x. x.provision_id == id) (h ∷ rest) ≡ some h
latest_here h rest id e = rw ((==_iff h.provision_id id).1 e) refl

latest_other :
    (h : ProvisionStatusHistory) (rest : List ProvisionStatusHistory) (id : Uuid)
    → (h.provision_id == id) ≡ false
    → find (λ x. x.provision_id == id) (h ∷ rest) ≡ find (λ x. x.provision_id == id) rest
latest_other h rest id e = rw e refl

Effect-IsRecorded : (db later : ProvisionDb) → Effect db later → IsRecorded db → IsRecorded later
Effect-IsRecorded db later unchanged recorded id r found = recorded id r found
Effect-IsRecorded db later (moved_to p q code s h own chosen move (same, status, _) (of_it, its))
      recorded id r found =
    elim (found_put db p q id r own same found) [
      | inl (e, here) ↦ (
        h,
        latest_here h db.status_history id (of_it ∙ here),
        its ∙ sym status ∙ sym (ap (λ x. x.status_id) e),
      )
      | inr (away, before) ↦
          let (g, newest, agrees) = recorded id r before in
          (
            g,
            latest_other h db.status_history id (subst (λ i. (i == id) ≡ false) (sym of_it) away)
                ∙ newest,
            agrees,
          )
    ]
Effect-IsRecorded db later (row_changed p q own (same, status) _) recorded id r found =
    elim (found_put db p q id r own same found) [
      | inl (e, here) ↦
          let (g, newest, agrees) = recorded p.id p own in
          (
            g,
            subst (λ i. latest i db ≡ some g) here newest,
            agrees ∙ sym status ∙ sym (ap (λ x. x.status_id) e),
          )
      | inr (away, before) ↦ recorded id r before
    ]
Effect-IsRecorded db later (documents_changed _ _ _ _ _ _) recorded id r found = recorded id r found
Effect-IsRecorded db later (granted _) recorded id r found = recorded id r found
Effect-IsRecorded db later (created p s documents grants h attachments new) recorded id r found =
    elim (Bool-cases (p.id == id)) [
      | inl here ↦
          let e : p ≡ r = some_inj p r (rw here at found) in
          (
            h,
            latest_here h db.status_history id (new.history_of ∙ (==_iff p.id id).0 here),
            new.history_status ∙ sym new.in_it ∙ ap (λ x. x.status_id) e,
          )
      | inr away ↦
          let (g, newest, agrees) = recorded id r (rw away at found) in
          (
            g,
            latest_other h db.status_history id
                  (subst (λ i. (i == id) ≡ false) (sym new.history_of) away)
                ∙ newest,
            agrees,
          )
    ]

-- Every change of status is recorded: where the newest entry of each provision's history names its
-- status, it does so after any request. The id for a new row is new.
pub handle-IsRecorded :
    (w : Surroundings) (user : User) (request : Request) (db : ProvisionDb)
    → get_provision w.new_id db ≡ none
    → IsRecorded db
    → IsRecorded (handle w user request db).1
handle-IsRecorded w user request db fresh recorded =
    Effect-IsRecorded db _ (handle-Effect w user db fresh request) recorded
