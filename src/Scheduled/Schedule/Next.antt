-- ===== src/Scheduled/Schedule/Next.antt =====
-- The next run of any schedule is later than the instant.
use proyecto.Common.{
  ◌<◌, ◌≡◌, refl, Bool, true, inl, inr, Option, none, some, List, [], ◌∷◌, arith, ltb, Option-cases,
  Bool-cases, min,
}
use mathlib.Core.Path.{subst}
use proyecto.Core.Errors.{Result, ok, err}
use proyecto.Jobs.Model.{Time}
use proyecto.Scheduled.Clock.{Wall, date_of, Zone, KeepsOrder}
use proyecto.Scheduled.Schedule.{
  Schedule, daily, interval_minutes, window_interval, unreadable, unsupported, Hhmm,
  next_window_interval, days_from, daily_candidate, least_daily, next_wall, next_within, overflows,
  in_utc, calculate_next_run,
}
use proyecto.Scheduled.Schedule.Window.{Config}
use proyecto.Scheduled.Schedule.First.{over_days_later}

-- An interval of no minutes would not move on.
abbrev pub moves_on : Schedule → Bool
moves_on (interval_minutes minutes) = ltb 0 minutes
moves_on _ = true

candidate_ahead : (current : Wall) (t : Hhmm) → current < daily_candidate current t
candidate_ahead current t = ground arith

some_eq : (a b : Wall) → some a ≡ some b → a ≡ b
some_eq a b h = ground arith

ok_eq : (a b : Wall) → ok a ≡ ok b → a ≡ b
ok_eq a b h = ground arith

least_daily_later :
    (current : Wall) (times : List Hhmm) (found : Wall)
    → least_daily current times ≡ some found
    → current < found
least_daily_later current [] found h = absurd (cc)
least_daily_later current (t ∷ times) found h =
    let here = candidate_ahead current t in
    elim (Option-cases (least_daily current times)) [
      | inl alone ↦ ground (arith, here, some_eq (daily_candidate current t) found (rw alone at h))
      | inr (other, there) ↦ omega (
        arith,
        here,
        least_daily_later current times other there,
        some_eq (min (daily_candidate current t) other) found (rw there at h),
      )
    ]

next_within_passes :
    (schedule : Schedule) (current found : Wall)
    → moves_on schedule ≡ true
    → next_within schedule current ≡ ok found
    → current < found
unfolding next_within next_window_interval
next_within_passes (daily times) current found h e =
    elim (Option-cases (least_daily current times)) [
      | inl missing ↦ absurd (cc (missing, e))
      | inr (w, there) ↦
          omega (arith, least_daily_later current times w there, ok_eq w found (rw there at e))
    ]
next_within_passes (interval_minutes minutes) current found h e = ground (arith, h, e)
next_within_passes (window_interval minutes weekdays start_time end_time) current found h e =
    let c : Config = record {
      minutes = minutes;
      weekdays = weekdays;
      start_time = start_time;
      end_time = end_time;
    } in
    elim (Option-cases
      (days_from 8 current minutes weekdays start_time end_time (date_of current))) [
        | inl missing ↦ absurd (cc (missing, e))
        | inr (w, there) ↦ omega (
          arith,
          over_days_later c current 8 (date_of current) w there,
          ok_eq w found (rw there at e),
        )
      ]
next_within_passes (unreadable error) current found h e = absurd (cc)
next_within_passes unsupported current found h e = absurd (cc)

next_wall_passes :
    (schedule : Schedule) (current found : Wall)
    → moves_on schedule ≡ true
    → next_wall schedule current ≡ ok found
    → current < found
unfolding next_wall
next_wall_passes schedule current found h e = elim (Bool-cases (overflows schedule current)) [
  | inl over ↦ absurd (let bad = rw over at e in cc)
  | inr near ↦ next_within_passes schedule current found h (rw near at e)
]

-- A next run that is calculated, of whatever configuration, is later than the instant.
pub calculate_next_run_passes :
    (schedule : Schedule) (zone_or_none : Option Zone) (after next : Time)
    → moves_on schedule ≡ true
    → ((zone : Zone) → zone_or_none ≡ some zone → KeepsOrder zone)
    → calculate_next_run schedule zone_or_none after ≡ ok next
    → after < next
unfolding calculate_next_run
calculate_next_run_passes schedule none after next h order e = absurd (cc)
calculate_next_run_passes schedule (some zone) after next h order e =
    go (next_wall schedule (zone.to_wall after)) refl e
  where
    go :
        (r : Result Wall)
        → next_wall schedule (zone.to_wall after) ≡ r
        → in_utc zone r ≡ ok next
        → after < next
    go (err x) there f = absurd (cc)
    go (ok w) there f =
        subst (λ n. after < n) (ok_eq (zone.to_instant w) next f)
          ((order zone refl).later after w
            (next_wall_passes schedule (zone.to_wall after) w h there))
