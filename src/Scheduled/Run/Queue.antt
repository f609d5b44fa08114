-- ===== src/Scheduled/Run/Queue.antt =====
-- The rows that are due at one instant: `run_due` works them off.
use proyecto.Common.{
  ℕ, zero, suc, ◌+◌, ◌≤◌, ◌<◌, ◌≡◌, ◌⊎◌, refl, sym, ◌∙◌, ap, Bool, true, false, inl, inr, none,
  some, [], ◌∷◌, arith, ◌==◌, ==_iff, if◌then◌else◌, Bool-cases, Option-cases, count, All,
}
use mathlib.Core.Path.{subst}
use proyecto.Jobs.Model.{Time}
use proyecto.Scheduled.Clock.{Zone, KeepsOrder}
use proyecto.Scheduled.Schedule.Next.{moves_on}
use proyecto.Scheduled.Rows.{
  ScheduledJob, ScheduledDb, schedule, is_due, put_row, first_due, precedes, earlier_of,
}
use proyecto.Scheduled.Run.{Env, advance_and_execute, run_due}
use proyecto.Scheduled.Run.Laws.{advance_and_execute-moves_on}

some_row : (a b : ScheduledJob) → some a ≡ some b → b ≡ a
some_row a b e = cc

module _ (now : Time) where
  abbrev due_count : ScheduledDb → ℕ
  due_count db = count (is_due now) db

  first_due-none : (db : ScheduledDb) → first_due now db ≡ none → due_count db ≡ 0
  unfolding first_due
  first_due-none [] h = refl
  first_due-none (row ∷ db) h = ground (arith, first_due-none db, h)

  earlier_cases :
      (r other row : ScheduledJob)
      → some (earlier_of r (some other)) ≡ some row
      → (row ≡ r) ⊎ (row ≡ other)
  earlier_cases r other row h = elim (Bool-cases (precedes other r)) [
    | inl before ↦ inr (some_row other row (rw before at h))
    | inr behind ↦ inl (some_row r row (rw behind at h))
  ]

  -- The first row, or one of the others.
  first_due_cons :
      (r row : ScheduledJob) (db : ScheduledDb)
      → first_due now (r ∷ db) ≡ some row
      → ((is_due now r ≡ true) × (row ≡ r)) ⊎ (first_due now db ≡ some row)
  unfolding first_due
  first_due_cons r row db h = elim (Bool-cases (is_due now r)) [
    | inl due ↦ elim (Option-cases (first_due now db)) [
      | inl alone ↦ inl (due, some_row r row (rw (due, alone) at h))
      | inr (other, there) ↦ elim (earlier_cases r other row (rw (due, there) at h)) [
        | inl here ↦ inl (due, here)
        | inr same ↦ inr (there ∙ ap some (sym same))
      ]
    ]
    | inr idle ↦ inr (rw idle at h)
  ]

  -- A row that is due is what the query gives.
  first_due-is_due :
      (db : ScheduledDb) (row : ScheduledJob) → first_due now db ≡ some row → is_due now row ≡ true
  unfolding first_due
  first_due-is_due [] row h = absurd (cc)
  first_due-is_due (r ∷ db) row h = elim (first_due_cons r row db h) [
    | inl (due, same) ↦ subst (λ x. is_due now x ≡ true) (sym same) due
    | inr there ↦ first_due-is_due db row there
  ]

  module _ (after : ScheduledJob) (idle : is_due now after ≡ false) where
    count-put_row_le : (db : ScheduledDb) → due_count (put_row after db) ≤ due_count db
    count-put_row_le [] = omega arith
    count-put_row_le (r ∷ db) = ground (arith, idle, count-put_row_le db)

    replaced_lt :
        (r : ScheduledJob) (db : ScheduledDb)
        → after.id ≡ r.id
        → is_due now r ≡ true
        → due_count (put_row after (r ∷ db)) < due_count (r ∷ db)
    replaced_lt r db same due =
        ground (arith, idle, due, (==_iff r.id after.id).1 (sym same), count-put_row_le db)

    count-put_row_lt :
        (db : ScheduledDb) (row : ScheduledJob)
        → after.id ≡ row.id
        → first_due now db ≡ some row
        → due_count (put_row after db) < due_count db
    unfolding first_due
    count-put_row_lt [] row same h = absurd (cc)
    count-put_row_lt (r ∷ db) row same h = elim (first_due_cons r row db h) [
      | inl (due, here) ↦ replaced_lt r db (same ∙ ap (λ x. x.id) here) due
      | inr there ↦ ground (arith, idle, count-put_row_lt db row same there)
    ]

module _ (env : Env) (now : Time) where
  -- A row that the scheduler can move on.
  pub record IsReady (row : ScheduledJob) : Type 0 where
    pub moves : moves_on (schedule row) ≡ true
    pub order : (zone : Zone) → env.zone_of row.timezone ≡ some zone → KeepsOrder zone

  abbrev pub ReadyIfDue : ScheduledJob → Type 0
  ReadyIfDue row = is_due now row ≡ true → IsReady row

  ready-put_row :
      (after : ScheduledJob) (db : ScheduledDb)
      → is_due now after ≡ false
      → All ReadyIfDue db
      → All ReadyIfDue (put_row after db)
  ready-put_row after [] idle h = tt
  ready-put_row after (r ∷ db) idle h =
      (head (r.id == after.id) h.0, ready-put_row after db idle h.1)
    where
      head : (test : Bool) → ReadyIfDue r → ReadyIfDue (if test then after else r)
      head true k due = absurd (cc (idle, due))
      head false k due = k due

  ready-first_due :
      (db : ScheduledDb) (row : ScheduledJob)
      → All ReadyIfDue db
      → first_due now db ≡ some row
      → ReadyIfDue row
  unfolding first_due
  ready-first_due [] row h e = absurd (cc)
  ready-first_due (r ∷ db) row h e = elim (first_due_cons now r row db e) [
    | inl (due, same) ↦ subst ReadyIfDue (sym same) h.0
    | inr there ↦ ready-first_due db row h.1 there
  ]

  -- One round: a row fewer is due.
  round_lt :
      (db : ScheduledDb) (row : ScheduledJob)
      → All ReadyIfDue db
      → first_due now db ≡ some row
      → let after = (advance_and_execute env now row).1 in
        (due_count now (put_row after db) < due_count now db) × All ReadyIfDue (put_row after db)
  round_lt db row h e =
      let ready = ready-first_due db row h e (first_due-is_due now db row e) in
      let (idle, same) = advance_and_execute-moves_on env now row ready.moves ready.order in
      let after = (advance_and_execute env now row).1 in
      (count-put_row_lt now after idle db row same e, ready-put_row after db idle h)

  run_due_idle :
      (k limit : ℕ) (db : ScheduledDb)
      → first_due now db ≡ none
      → run_due env (λ _. now) k (suc limit) db ≡ (0, db)
  unfolding run_due
  run_due_idle k limit db e = rw (e, run_due)

  run_due_round :
      (k limit : ℕ) (db : ScheduledDb) (row : ScheduledJob)
      → first_due now db ≡ some row
      → let step = advance_and_execute env now row in
        let later = run_due env (λ _. now) (k + 1) limit (put_row step.1 db) in
        run_due env (λ _. now) k (suc limit) db ≡ ((if step.0 then 1 else 0) + later.0, later.1)
  unfolding run_due
  run_due_round k limit db row e = rw (e, run_due)

  abbrev IsCleared : ScheduledDb → ℕ × ScheduledDb → Type 0
  IsCleared db r = (count (is_due now) r.1 ≡ 0) × (r.0 ≤ count (is_due now) db)

  cleared :
      (k limit : ℕ) (db : ScheduledDb)
      → All ReadyIfDue db
      → count (is_due now) db ≤ limit
      → IsCleared db (run_due env (λ _. now) k limit db)
  unfolding run_due
  cleared k zero db h enough = (omega (arith, enough), omega arith)
  cleared k (suc limit) db h enough = elim (Option-cases (first_due now db)) [
    | inl idle ↦
        subst (IsCleared db) (sym (run_due_idle k limit db idle))
          (first_due-none now db idle, omega arith)
    | inr (row, e) ↦
        let (fewer, ready) = round_lt db row h e in
        let step = advance_and_execute env now row in
        let ih = cleared (k + 1) limit (put_row step.1 db) ready (omega (arith, fewer, enough)) in
        subst (IsCleared db) (sym (run_due_round k limit db row e))
          (ih.0, ground (arith, fewer, ih.1))
  ]

  -- A pass of the scheduler at one instant, with a limit of at least the rows that are due, leaves
  -- no row due, and publishes at most as many jobs: also where the configuration of a row cannot
  -- be read or its job cannot be published. Every due row has a zone that keeps the order, and an
  -- interval of at least one minute.
  pub run_due_clears :
      (k limit : ℕ) (db : ScheduledDb)
      → All ReadyIfDue db
      → count (is_due now) db ≤ limit
      → (count (is_due now) (run_due env (λ _. now) k limit db).1 ≡ 0)
        × ((run_due env (λ _. now) k limit db).0 ≤ count (is_due now) db)
  run_due_clears k limit db h enough = cleared k limit db h enough
