-- ===== src/Provisions/Refine/Runs.antt =====
-- What holds of a provision over any sequence of requests.
use proyecto.Common.{
  ◌≡◌, ◌≢◌, ◌⊎◌, refl, sym, ◌∙◌, ap, String, false, none, some, List, [], ◌∷◌, inl, inr, str_eq,
  eq_iff,
}
use mathlib.Core.Path.{subst}
use proyecto.Core.Access.{User}
use proyecto.Jobs.Model.{Uuid}
use proyecto.Provisions.Model.{
  approved_status, rejected_final_status, cancelled_status, Provision, ProvisionDb,
}
use proyecto.Provisions.Repository.{get_provision}
use proyecto.Provisions.Lifecycle.{
  IsOpen, Step, submit, submit_again, approve, reject_for_edit, reject_final, cancel, Reaches, stay,
  further,
}
use proyecto.Provisions.Lifecycle.Effect.{
  Effect, unchanged, moved_to, row_changed, documents_changed, granted, created,
}
use proyecto.Provisions.Lifecycle.Requests.{Request, Surroundings, handle, Event, after}
use proyecto.Provisions.Lifecycle.Steps.{handle-Effect}
use proyecto.Provisions.Refine.{Refines, Effect-Refines}
use proyecto.Provisions.Refine.Statuses.{status_of, IsCatalogue}

-- The operations keep to the life cycle: whatever a request does, every provision is still there
-- afterwards, in the status it had or in one that a single step of the life cycle leads to. The ids of
-- the statuses are distinct, and the id for a new row is new.
pub handle-Refines :
    (w : Surroundings) (user : User) (request : Request) (db : ProvisionDb)
    → IsCatalogue db.statuses
    → get_provision w.new_id db ≡ none
    → Refines db (handle w user request db).1
handle-Refines w user request db keys fresh =
    Effect-Refines db (handle w user request db).1 keys (handle-Effect w user db fresh request)

-- The catalogue of statuses is not written.
pub Effect-statuses : (db later : ProvisionDb) → Effect db later → later.statuses ≡ db.statuses
Effect-statuses db later unchanged = refl
Effect-statuses db later (moved_to _ _ _ _ _ _ _ _ _ _) = refl
Effect-statuses db later (row_changed _ _ _ _ _) = refl
Effect-statuses db later (documents_changed _ _ _ _ _ _) = refl
Effect-statuses db later (granted _) = refl
Effect-statuses db later (created _ _ _ _ _ _ _) = refl

-- Each new row gets an id that no row has at that time.
abbrev pub AllFresh : List Event → ProvisionDb → Type 0
AllFresh [] db = Unit
AllFresh (e ∷ events) db =
    (get_provision e.surroundings.new_id db ≡ none)
    × AllFresh events (handle e.surroundings e.user e.request db).1

join : (a b c : String) → (b ≡ a) ⊎ Step a b → Reaches b c → Reaches a c
join a b c (inl same) later = subst (λ x. Reaches x c) same later
join a b c (inr step) later = further a b c step later

-- Over any sequence of requests, a provision is never lost, and the status it ends in is one that steps
-- of the life cycle lead to from the status it was in. The ids of the statuses are distinct, and the
-- id of each new row is new.
pub after-Reaches :
    (events : List Event) (db : ProvisionDb) (id : Uuid) (p : Provision) (code : String)
    → IsCatalogue db.statuses
    → AllFresh events db
    → get_provision id db ≡ some p
    → status_of p db ≡ some code
    → (q : Provision) × (last : String) × (get_provision id (after events db) ≡ some q)
      × (status_of q (after events db) ≡ some last)
      × Reaches code last
unfolding after
after-Reaches [] db id p code keys fresh found at = (p, code, found, at, stay code)
after-Reaches (e ∷ events) db id p code keys fresh found at =
    let effect : Effect db (handle e.surroundings e.user e.request db).1 =
      handle-Effect e.surroundings e.user db fresh.0 e.request in
    let (q, next, kept, there, step) = Effect-Refines db _ keys effect id p code found at in
    let still_keys : IsCatalogue (handle e.surroundings e.user e.request db).1.statuses =
      subst IsCatalogue (sym (Effect-statuses db _ effect)) keys in
    let (r, last, found_last, at_last, reached) =
      after-Reaches events (handle e.surroundings e.user e.request db).1 id q next still_keys
        fresh.1 kept there in
    (r, last, found_last, at_last, join code next last step reached)

-- Approved, rejected for good, or cancelled
abbrev pub IsClosed : String → Type 0
IsClosed code =
    (code ≡ approved_status) ⊎ (code ≡ rejected_final_status) ⊎ (code ≡ cancelled_status)

-- Texts that the test tells apart
pub differ : (a b : String) → str_eq a b ≡ false → a ≢ b
differ a b h e = absurd (cc (h, (eq_iff a b).1 e))

not_closed : (code next : String) → IsOpen code → IsClosed code → next ≡ code
not_closed code next (a, r, c) (inl e) = absurd (a e)
not_closed code next (a, r, c) (inr (inl e)) = absurd (r e)
not_closed code next (a, r, c) (inr (inr e)) = absurd (c e)

test-IsOpen :
    (code : String)
    → str_eq code approved_status ≡ false
    → str_eq code rejected_final_status ≡ false
    → str_eq code cancelled_status ≡ false
    → IsOpen code
test-IsOpen code a r c = (
  differ code approved_status a,
  differ code rejected_final_status r,
  differ code cancelled_status c,
)

no_step : (code next : String) → IsClosed code → Step code next → next ≡ code
no_step code next closed submit = not_closed code next (test-IsOpen code refl refl refl) closed
no_step code next closed submit_again =
    not_closed code next (test-IsOpen code refl refl refl) closed
no_step code next closed approve = not_closed code next (test-IsOpen code refl refl refl) closed
no_step code next closed reject_for_edit =
    not_closed code next (test-IsOpen code refl refl refl) closed
no_step code next closed reject_final =
    not_closed code next (test-IsOpen code refl refl refl) closed
no_step code next closed (cancel _ still_open) = not_closed code next still_open closed

closed-Reaches : (code last : String) → IsClosed code → Reaches code last → last ≡ code
closed-Reaches code _ closed (stay _) = refl
closed-Reaches code last closed (further _ next _ step later) =
    let same : next ≡ code = no_step code next closed step in
    closed-Reaches next last (subst IsClosed (sym same) closed) later ∙ same

-- A closed provision stays closed: no sequence of requests, by whichever users, changes the status of a
-- provision that was approved, rejected for good or cancelled. The ids of the statuses are distinct,
-- and the id of each new row is new.
pub after-IsClosed :
    (events : List Event) (db : ProvisionDb) (id : Uuid) (p : Provision) (code : String)
    → IsCatalogue db.statuses
    → AllFresh events db
    → get_provision id db ≡ some p
    → status_of p db ≡ some code
    → IsClosed code
    → (q : Provision) × (get_provision id (after events db) ≡ some q)
      × (status_of q (after events db) ≡ some code)
after-IsClosed events db id p code keys fresh found at closed =
    let (q, last, kept, there, reached) = after-Reaches events db id p code keys fresh found at in
    (q, kept, there ∙ ap some (closed-Reaches code last closed reached))
