-- ===== src/Scheduled/Schedule/First.antt =====
-- A WINDOW_INTERVAL schedule: the first slot after an instant, which is always found.
use proyecto.Common.{
  ℕ, zero, suc, ◌+◌, ◌*◌, ◌≤◌, ◌<◌, ◌≡◌, ◌≢◌, refl, sym, ◌∙◌, true, false, inl, inr, none, some,
  arith, ltb, ◌==◌, ==_iff, Bool-cases, Option-cases, ltb→lt,
}
use mathlib.Core.Path.{subst}
use proyecto.Core.Errors.{ok}
use proyecto.Jobs.Model.{Time}
use proyecto.Scheduled.Clock.{
  Wall, max_wall, minute, day, combine, date_of, weekday, Zone, KeepsOrder,
}
use proyecto.Scheduled.Schedule.{
  window_on, days_from, next_window_interval, is_valid_schedule, elem, passes_max, window_overflows,
  window_rounds, days_overflow, minutes_of_day, overflows, next_within, next_wall,
  calculate_next_run,
}
use proyecto.Scheduled.Schedule.Window.{
  Config, schedule_of, IsSlotOn, IsSlot, IsValid, is_valid_schedule-IsValid, over_days, IsNext,
  on_day-IsFirst, on_day_future, over_days-IsNext, over_days-none, weekday_within,
}

module _ (c : Config) (current : Wall) (v : IsValid c) where
  -- Some day within the next week has a window, all of which is to come.
  over_days_found : over_days c current 8 (date_of current) ≢ none
  over_days_found h =
      let (d, small, listed) = v.first in
      let (j, pos, near, hits) = weekday_within (date_of current) d small in
      on_day_future c current v (date_of current + j) (omega (arith, pos)) (
        over_days-none c current 8 (date_of current) (date_of current + j) h (omega arith)
          (omega arith) (rw hits listed))

  next_day : (a b : ℕ) → ltb a b ≡ false → (b == a) ≡ false → b < a
  next_day a b h k = ground (arith, h, k)

  -- A slot later than the instant is not before the one that the search gives.
  next_least :
      (found : ℕ)
      → IsNext c current (date_of current) found
      → (w : Wall) → IsSlot c w
      → current < w
      → found ≤ w
  next_least found n w (date, s) later = elim (Bool-cases (ltb date (n.slot).0)) [
    | inl before ↦ elim (Bool-cases (ltb date (date_of current))) [
      | inl old ↦ absurd (omega (arith, s.2, v.within, later, ltb→lt date (date_of current) old))
      | inr recent ↦ absurd (
          omega (
            arith,
            later,
            n.earlier date (ground (arith, recent)) (ltb→lt date (n.slot).0 before) w s,
          ))
    ]
    | inr behind ↦ elim (Bool-cases ((n.slot).0 == date)) [
      | inl same ↦
          n.same_day w (subst (λ d. IsSlotOn c d w) (sym ((==_iff (n.slot).0 date).0 same)) s) later
      | inr differs ↦
          omega (arith, (n.slot).1.2, s.1, v.within, next_day date (n.slot).0 behind differs)
    ]
  ]

-- The search of a valid window schedule gives the first slot.
pub first_window :
    (c : Config) (current : Wall)
    → is_valid_schedule (schedule_of c) ≡ true
    → (found : Wall) × (next_window_interval current c.minutes c.weekdays c.start_time c.end_time
        ≡ ok found)
      × IsSlot c found
      × (current < found)
      × ((w : Wall) → IsSlot c w → current < w → found ≤ w)
unfolding next_window_interval
first_window c current h =
    let v = is_valid_schedule-IsValid c h in
    elim (Option-cases (over_days c current 8 (date_of current))) [
      | inl missing ↦ absurd (over_days_found c current v missing)
      | inr (found, there) ↦
          let n = over_days-IsNext c current 8 (date_of current) found v there in
          (found, rw there, n.slot, n.later, next_least c current v found n)
    ]

window_fits :
    (rounds : ℕ) (current : Wall) (minutes : ℕ) (candidate window_end : Wall)
    → current + minutes * minute ≤ max_wall
    → window_overflows rounds current minutes candidate window_end ≡ false
unfolding window_overflows
window_fits zero current minutes candidate window_end room = refl
window_fits (suc rounds) current minutes candidate window_end room =
    ground (
      arith,
      room,
      window_fits rounds current minutes (candidate + minutes * minute) window_end room,
    )

days_fit :
    (n : ℕ) (c : Config) (current : Wall) (date : ℕ)
    → current + c.minutes * minute ≤ max_wall
    → combine (date + n) 0 ≤ max_wall
    → days_overflow n current c.minutes c.weekdays c.start_time c.end_time date ≡ false
unfolding days_overflow
days_fit zero c current date room near = refl
days_fit (suc n) c current date room near =
    let here : passes_max (combine date 0) ≡ false = ground (arith, near) in
    rw (here, days_fit n c current (date + 1) room (omega (arith, near)))
      (rw
        (window_fits (window_rounds c.start_time c.end_time) current c.minutes
          (combine date (minutes_of_day c.start_time)) (combine date (minutes_of_day c.end_time))
          room)
        ground arith)

-- The next run of a valid window schedule, in a zone that keeps the order of the clock, where neither
-- one interval nor eight days from the instant on pass the year 9999: it exists and is later than the
-- instant; by the wall clock it is a slot on a listed weekday, within the window of its day, and the
-- first of all slots that the clock has yet to show.
pub next_window_first :
    (c : Config) (zone : Zone) (after : Time)
    → let current = zone.to_wall after in
      is_valid_schedule (schedule_of c) ≡ true
      → KeepsOrder zone
      → current + c.minutes * minute ≤ max_wall
      → current + 8 * day ≤ max_wall
      → (found : Wall) × (calculate_next_run (schedule_of c) (some zone) after
          ≡ ok (zone.to_instant found))
        × (after < zone.to_instant found)
        × IsSlot c found
        × (current < found)
        × ((w : Wall) → IsSlot c w → current < w → found ≤ w)
unfolding calculate_next_run next_wall next_within overflows
next_window_first c zone after h order room near =
    let current = zone.to_wall after in
    let (found, there, slot, later, least) = first_window c current h in
    (
      found,
      rw (days_fit 8 c current (date_of current) room (omega (arith, near)), there) refl,
      order.later after found later,
      slot,
      later,
      least,
    )

-- Whatever the configuration, a time that the search gives is later than the instant.
pub over_days_later :
    (c : Config) (current : Wall) (n from found : ℕ)
    → days_from n current c.minutes c.weekdays c.start_time c.end_time from ≡ some found
    → current < found
unfolding days_from
over_days_later c current zero from found h = absurd (cc)
over_days_later c current (suc n) from found h =
    elim (Bool-cases (elem (weekday from) c.weekdays)) [
      | inl allowed ↦
          elim (Option-cases (window_on current c.minutes c.start_time c.end_time from)) [
            | inl past ↦ over_days_later c current n (from + 1) found (rw (allowed, past) at h)
            | inr (w, here) ↦
                (on_day-IsFirst c current from found (here ∙ rw (allowed, here) at h)).later
          ]
      | inr off ↦ over_days_later c current n (from + 1) found (rw off at h)
    ]
