-- ===== src/Scheduled/Edit/Laws.antt =====
-- What an edit of the table of scheduled jobs keeps: valid configurations and distinct names.
use proyecto.Common.{
  ◌≡◌, ◌≢◌, ◌⊎◌, refl, ◌∙◌, ap, String, Bool, true, false, not, ◌&&◌, inl, inr, Option, some, [],
  ◌∷◌, arith, ◌==◌, eq_iff, if◌then◌else◌, Bool-cases, Option-cases, All,
}
use mathlib.Core.Path.{subst}
use proyecto.Scheduled.Config.{read_schedule}
use proyecto.Core.Errors.{validation, Result, ok, err}
use proyecto.Jobs.Model.{Uuid, Time}
use proyecto.Scheduled.Clock.{Zone}
use proyecto.Scheduled.Schedule.{is_valid_schedule}
use proyecto.Scheduled.Rows.{ScheduledJob, ScheduledDb, schedule, get_by_id, put_row, name_taken}
use proyecto.Scheduled.Edit.{
  ScheduledJobCreate, ScheduledJobUpdate, new_row, merged, changes_config, unknown_zone, next_of,
  saved, save_at, update_row, update, inserted, insert_at, first_run, create, name_conflict,
  sent_or, is_none,
}

abbrev pub IsValidRow : ScheduledJob → Type 0
IsValidRow row = is_valid_schedule (schedule row) ≡ true

All-put_row :
    (P : ScheduledJob → Type 0) (row : ScheduledJob) (db : ScheduledDb)
    → P row
    → All P db
    → All P (put_row row db)
All-put_row P row [] p h = tt
All-put_row P row (r ∷ db) p h = (head (r.id == row.id), All-put_row P row db p h.1)
  where
    head : (test : Bool) → P (if test then row else r)
    head true = p
    head false = h.0

All-found :
    (P : ScheduledJob → Type 0) (id : Uuid) (db : ScheduledDb) (row : ScheduledJob)
    → All P db
    → get_by_id id db ≡ some row
    → P row
unfolding get_by_id
All-found P id [] row h e = absurd (cc)
All-found P id (r ∷ db) row h e = elim (Bool-cases (r.id == id)) [
  | inl here ↦ subst P (some_row r row (rw here at e)) h.0
  | inr other ↦ All-found P id db row h.1 (rw other at e)
]
  where
    some_row : (a b : ScheduledJob) → some a ≡ some b → a ≡ b
    some_row a b q = cc

-- Without a kind or a configuration the schedule stays.
schedule-merged :
    (row : ScheduledJob) (u : ScheduledJobUpdate)
    → changes_config u ≡ false
    → schedule (merged row u) ≡ schedule row
schedule-merged row u h =
    let kind : sent_or u.schedule_kind row.schedule_kind ≡ row.schedule_kind = ground (arith, h) in
    let config : sent_or u.schedule_config row.schedule_config ≡ row.schedule_config =
      ground (arith, h) in
    rw (kind, config)

All-if :
    (test : Bool) (a b : Result ScheduledJob × ScheduledDb)
    → All IsValidRow a.1
    → All IsValidRow b.1
    → All IsValidRow (if test then a else b).1
All-if true a b ha hb = ha
All-if false a b ha hb = hb

module _ (zone_of : String → Option Zone) (invalid_text : String) (now : Time) (user_id : Uuid)
    (u : ScheduledJobUpdate) where
  saved-All :
      (db : ScheduledDb) (row : ScheduledJob)
      → IsValidRow row
      → All IsValidRow db
      → All IsValidRow (saved db row).1
  saved-All db row v h =
      All-if (name_taken row db) (err name_conflict, db) (ok row, put_row row db) h
        (All-put_row IsValidRow row db v h)

  save_at-All :
      (db : ScheduledDb) (row : ScheduledJob) (next : Result Time)
      → IsValidRow row
      → All IsValidRow db
      → All IsValidRow (save_at user_id db row next).1
  save_at-All db row (err e) v h = h
  save_at-All db row (ok next) v h =
      saved-All db (record row { next_run_at = next; updated_by = some user_id }) v h

  merged-valid :
      (row : ScheduledJob)
      → IsValidRow row
      → (changes_config u && not (is_valid_schedule (schedule (merged row u)))) ≡ false
      → IsValidRow (merged row u)
  merged-valid row v passed = elim (Bool-cases (changes_config u)) [
    | inl changed ↦ ground (arith, changed, passed)
    | inr same ↦ ap is_valid_schedule (schedule-merged row u same) ∙ v
  ]

  update_row-All :
      (db : ScheduledDb) (row : ScheduledJob)
      → IsValidRow row
      → All IsValidRow db
      → All IsValidRow (update_row zone_of invalid_text now user_id u db row).1
  update_row-All db row v h = elim (Bool-cases (unknown_zone zone_of u)) [
    | inl unknown ↦ rw unknown h
    | inr known ↦
        elim (Bool-cases (changes_config u && not (is_valid_schedule (schedule (merged row u))))) [
          | inl refused ↦ rw (known, refused) h
          | inr passed ↦
              rw (known, passed)
                (save_at-All db (merged row u) (next_of zone_of now u (merged row u))
                  (merged-valid row v passed) h)
        ]
  ]

-- Where every stored configuration is valid, a change of a scheduled job, whatever it sends,
-- leaves every stored configuration valid: also a partial change, such as a new kind without its
-- configuration.
pub update-IsValidRow :
    (zone_of : String → Option Zone) (invalid_text : String) (now : Time) (id user_id : Uuid)
    (u : ScheduledJobUpdate) (db : ScheduledDb)
    → All IsValidRow db
    → All IsValidRow (update zone_of invalid_text now id user_id u db).1
unfolding update
update-IsValidRow zone_of invalid_text now id user_id u db h =
    elim (Option-cases (get_by_id id db)) [
      | inl missing ↦ rw (missing, update) h
      | inr (row, found) ↦
          rw (found, update)
            (update_row-All zone_of invalid_text now user_id u db row
              (All-found IsValidRow id db row h found) h)
    ]

untaken :
    (row : ScheduledJob) (db : ScheduledDb)
    → All (λ r. (r.id == row.id) ≡ false) db
    → name_taken row db ≡ false
    → All (λ r. r.name ≢ row.name) db
untaken row [] fresh h = tt
untaken row (r ∷ db) fresh h = (
  λ same. ground (arith, fresh.0, h, (eq_iff r.name row.name).1 same),
  untaken row db fresh.1 (ground (arith, fresh.0, h)),
)

-- The table is left alone, or has one more row, in front, that is valid and whose name is its own.
abbrev pub IsInsertOf : ScheduledDb → ScheduledDb → Type 0
IsInsertOf db after =
    (after ≡ db)
    ⊎ ((row : ScheduledJob) × (after ≡ row ∷ db) × IsValidRow row × All (λ r. r.name ≢ row.name) db)

module _ (db : ScheduledDb) where
  insert-if :
      (test : Bool) (row : ScheduledJob)
      → IsValidRow row
      → All (λ r. (r.id == row.id) ≡ false) db
      → name_taken row db ≡ test
      → IsInsertOf db (inserted db row).1
  insert-if true row v fresh e = rw e (inl refl)
  insert-if false row v fresh e = rw e (inr (row, refl, v, untaken row db fresh e))

  insert_at_lem :
      (id user_id : Uuid) (request : ScheduledJobCreate) (next : Result Time)
      → is_valid_schedule (read_schedule request.schedule_kind request.schedule_config) ≡ true
      → All (λ (r : ScheduledJob). (r.id == id) ≡ false) db
      → IsInsertOf db (insert_at id user_id request db next).1
  insert_at_lem id user_id request (err e) v fresh = inl refl
  insert_at_lem id user_id request (ok next) v fresh =
      insert-if (name_taken (new_row id user_id request next) db) (new_row id user_id request next)
        v fresh refl

-- `create` leaves the table alone or puts one row in front, which has a valid configuration and a name
-- that no other row has. The configuration that is sent is valid, and the id is new.
pub create-IsInsertOf :
    (zone_of : String → Option Zone) (now : Time) (id user_id : Uuid) (request : ScheduledJobCreate)
    (db : ScheduledDb)
    → is_valid_schedule (read_schedule request.schedule_kind request.schedule_config) ≡ true
    → All (λ (r : ScheduledJob). (r.id == id) ≡ false) db
    → IsInsertOf db (create zone_of now id user_id request db).1
unfolding create
create-IsInsertOf zone_of now id user_id request db v fresh =
    insert_zone (is_none (zone_of request.timezone))
      (first_run zone_of now (new_row id user_id request now) request.next_run_at)
  where
    insert_zone :
        (unknown : Bool) (next : Result Time)
        → IsInsertOf db
            (if◌then◌else◌ {A = Result ScheduledJob × ScheduledDb} unknown
              (err (validation "Zona horaria no soportada"), db)
              (insert_at id user_id request db next)).1
    insert_zone true next = inl refl
    insert_zone false next = insert_at_lem db id user_id request next v fresh
