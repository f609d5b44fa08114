-- ===== src/Provisions/Refine/Statuses.antt =====
-- The status of a provision as the text of its code.
use proyecto.Common.{
  ◌≡◌, ◌≢◌, refl, sym, ◌∙◌, ap, String, Bool, true, false, Option, none, some, List, [], ◌∷◌, inl,
  inr, arith, ==-refl, eq_iff, str_eq, ◌==◌, Bool-cases, find, All,
}
use mathlib.Core.Path.{subst}
use proyecto.Common.Tables.{some_inj, find_found, All_find}
use proyecto.Provisions.Model.{ProvisionStatus, Provision, ProvisionDb}
use proyecto.Provisions.Repository.{get_provision_status_by_code, status_row}
use proyecto.Provisions.Access.{is_in, has_code}

abbrev pub code_text : Option ProvisionStatus → Option String
code_text none = none
code_text (some row) = some row.code

-- `provision.status.code`
unfoldable pub status_of : Provision → ProvisionDb → Option String
status_of p db = code_text (status_row p.status_id db.statuses)

-- The ids of the catalogue are distinct: they are its primary key.
abbrev pub IsCatalogue : List ProvisionStatus → Type 0
IsCatalogue [] = Unit
IsCatalogue (s ∷ rows) =
    All (λ (t : ProvisionStatus). (t.id == s.id) ≡ false) rows × IsCatalogue rows

own_id : (t : ProvisionStatus) (rows : List ProvisionStatus) → status_row t.id (t ∷ rows) ≡ some t
own_id t rows = rw (==-refl t.id) refl

status_row-found :
    (test : ProvisionStatus → Bool) (rows : List ProvisionStatus) (s : ProvisionStatus)
    → IsCatalogue rows
    → find test rows ≡ some s
    → status_row s.id rows ≡ some s
status_row-found test [] s keys h = absurd (cc)
status_row-found test (t ∷ rows) s keys h = elim (Bool-cases (test t)) [
  | inl here ↦
      subst (λ x. status_row x.id (t ∷ rows) ≡ some x) (some_inj t s (rw here at h)) (own_id t rows)
  | inr other ↦
      let later : find test rows ≡ some s = rw other at h in
      let away : (s.id == t.id) ≡ false =
        All_find (λ x. (x.id == t.id) ≡ false) test rows s keys.0 later in
      let apart : (t.id == s.id) ≡ false = ground (arith, away) in
      rw apart (status_row-found test rows s keys.1 later)
]

-- The status that a code chooses has that code.
pub status_of-chosen :
    (code : String) (s : ProvisionStatus) (q : Provision) (db : ProvisionDb)
    → IsCatalogue db.statuses
    → get_provision_status_by_code code db ≡ some s
    → status_of (record q { status_id = s.id }) db ≡ some code
unfolding status_of
status_of-chosen code s q db keys h =
    let row : status_row s.id db.statuses ≡ some s =
      status_row-found (λ x. str_eq x.code code) db.statuses s keys h in
    let named : s.code ≡ code =
      (eq_iff s.code code).0 (find_found (λ x. str_eq x.code code) db.statuses s h) in
    ap code_text row ∙ ap some named

row-code :
    (test : String) (row : Option ProvisionStatus) (code : String)
    → has_code test row ≡ true
    → code_text row ≡ some code
    → code ≡ test
row-code test none code h e = absurd (cc)
row-code test (some row) code h e = some_inj code row.code (sym e) ∙ (eq_iff row.code test).0 h

pub is_in-status :
    (test : String) (p : Provision) (db : ProvisionDb) (code : String)
    → is_in test p.status_id db.statuses ≡ true
    → status_of p db ≡ some code
    → code ≡ test
unfolding is_in status_of
is_in-status test p db code h e = row-code test (status_row p.status_id db.statuses) code h e

pub status-is_in :
    (test : String) (p : Provision) (db : ProvisionDb)
    → status_of p db ≡ some test
    → is_in test p.status_id db.statuses ≡ true
unfolding is_in status_of
status-is_in test p db e = named (status_row p.status_id db.statuses) e
  where
    named : (row : Option ProvisionStatus) → code_text row ≡ some test → has_code test row ≡ true
    named none e = absurd (cc)
    named (some row) e = (eq_iff row.code test).1 (some_inj row.code test e)

-- A status that it is not in is not its status.
pub closed_unless :
    (test : String) (p : Provision) (db : ProvisionDb) (code : String)
    → status_of p db ≡ some code
    → is_in test p.status_id db.statuses ≡ false
    → code ≢ test
closed_unless test p db code at out same =
    let yes_in : is_in test p.status_id db.statuses ≡ true =
      status-is_in test p db (at ∙ ap some same) in
    absurd (cc)

-- A provision that is in a status has its code.
pub status_of-in :
    (test : String) (p : Provision) (db : ProvisionDb)
    → is_in test p.status_id db.statuses ≡ true
    → status_of p db ≡ some test
unfolding is_in status_of
status_of-in test p db h = named (status_row p.status_id db.statuses) h
  where
    named : (row : Option ProvisionStatus) → has_code test row ≡ true → code_text row ≡ some test
    named none h = absurd (cc)
    named (some row) h = ap some ((eq_iff row.code test).0 h)
