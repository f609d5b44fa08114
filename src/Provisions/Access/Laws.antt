-- ===== src/Provisions/Access/Laws.antt =====
-- What a passed guard says of the row it lets through, and what the access checks have in common.
use proyecto.Common.{
  ◌≡◌, refl, sym, String, Bool, true, false, ◌||◌, Option, none, some, List, [], ◌∷◌, arith, any,
  ◌==◌, ==_iff, Bool-cases, inl, inr,
}
use mathlib.Core.Path.{subst}
use proyecto.Common.Tables.{find_found}
use proyecto.Core.Errors.{Error, Result, ok, err}
use proyecto.Jobs.Model.{Uuid}
use proyecto.Provisions.Model.{Provision, ProvisionAccess, ProvisionDb}
use proyecto.Provisions.Repository.{get_provision, access_of}
use proyecto.Provisions.Access.{
  can_edit, can_view, can_edit_access, may_view, may_edit, require, ensure_editable, found_or_404,
  provision_or_404, and_then,
}

pub ok_inj : {A : Type 0} (a b : A) → ok a ≡ ok b → a ≡ b
ok_inj a b e = cc

pub and_then_passed :
    {A B : Type 0} (r : Result A) (f : A → Result B) (b : B)
    → and_then r f ≡ ok b
    → (a : A) × (r ≡ ok a) × (f a ≡ ok b)
and_then_passed (ok a) f b e = (a, refl, e)
and_then_passed (err x) f b e = absurd (cc)

pub require_passed : (test : Bool) (e : Error) (u : Unit {0}) → require test e ≡ ok u → test ≡ true
require_passed true e u h = refl
require_passed false e u h = absurd (cc)

pub found_passed :
    {A : Type 0} (o : Option A) (detail : String) (a : A)
    → found_or_404 o detail ≡ ok a
    → o ≡ some a
found_passed none detail a h = absurd (cc)
found_passed (some x) detail a h = cc

-- A row that a key finds is found by its own id.
pub get_provision_own :
    (id : Uuid) (db : ProvisionDb) (p : Provision)
    → get_provision id db ≡ some p
    → get_provision p.id db ≡ some p
get_provision_own id db p h =
    let same : p.id ≡ id = (==_iff p.id id).0 (find_found (λ q. q.id == id) db.provisions p h) in
    subst (λ i. get_provision i db ≡ some p) (sym same) h

pub provision_passed :
    (id : Uuid) (db : ProvisionDb) (p : Provision)
    → provision_or_404 id db ≡ ok p
    → get_provision p.id db ≡ some p
provision_passed id db p h =
    get_provision_own id db p (found_passed (get_provision id db) "Provision no encontrada" p h)

-- The guard of an edit gives back the row it was given, and the row may be edited.
pub editable_passed :
    (p q : Provision) (user_id : Uuid) (all : Bool) (detail : String) (db : ProvisionDb)
    → ensure_editable p user_id all detail db ≡ ok q
    → (p ≡ q) × (can_edit p db ≡ true) × ((all || can_edit_access p (some user_id) db) ≡ true)
editable_passed p q user_id all detail db h =
    elim (Bool-cases (all || can_edit_access p (some user_id) db)) [
      | inl access ↦ elim (Bool-cases (can_edit p db)) [
        | inl open_state ↦ (ground (arith, access, open_state, h), open_state, access)
        | inr closed ↦ absurd (ground (arith, access, closed, h))
      ]
      | inr denied ↦ absurd (ground (arith, denied, h))
    ]

-- Whoever may edit may view.
may_edit-view :
    (user_id : Uuid) (grants : List ProvisionAccess)
    → any (may_edit user_id) grants ≡ true
    → any (may_view user_id) grants ≡ true
may_edit-view user_id [] h = absurd (cc)
may_edit-view user_id (a ∷ grants) h = ground (arith, may_edit-view user_id grants, h)

-- Whoever may edit a provision, as its creator or by a grant, may also see it.
pub can_edit_access-can_view :
    (p : Provision) (user_id : Option Uuid) (db : ProvisionDb)
    → can_edit_access p user_id db ≡ true
    → can_view p user_id db ≡ true
unfolding can_edit_access can_view
can_edit_access-can_view p none db h = absurd (cc)
can_edit_access-can_view p (some user_id) db h =
    ground (arith, h, may_edit-view user_id (access_of p.id db))
