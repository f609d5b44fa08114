-- ===== src/Scheduled/Schedule.antt =====
-- app/api/scheduled_jobs/schedule.py, with `validate_schedule_config` of
-- app/api/scheduled_jobs/schemas.py. The JSON of `schedule_config` is read as the fields that its kind
-- uses; a configuration on which reading raises is `unreadable` with the text of the error.
pub mod Laws
pub mod Window
pub mod Daily
pub mod First
pub mod Next
use proyecto.Common.{
  ℕ, zero, suc, ◌+◌, ◌*◌, ◌-◌, ◌/◌, ◌≤◌, ◌<◌, String, Bool, true, false, not, ◌&&◌, ◌||◌, Option,
  none, some, List, [], ◌∷◌, ◌==◌, ltb, leb, if◌then◌else◌, all, any, min,
}
use proyecto.Core.Errors.{Error, validation, value_error, overflow_error, Result, ok, err}
use proyecto.Jobs.Model.{Time}
use proyecto.Scheduled.Clock.{Wall, max_wall, minute, day, date_of, weekday, combine, Zone}

-- An hour and a minute, as `"HH:MM"` gives them.
abbrev pub Hhmm : Type 0
Hhmm = ℕ × ℕ

pub data Schedule : Type 0 where
  daily : List Hhmm → Schedule
  interval_minutes : ℕ → Schedule
  -- minutes, weekdays, start and end
  window_interval : ℕ → List ℕ → Hhmm → Hhmm → Schedule
  unreadable : String → Schedule
  -- a kind that is none of the three
  unsupported : Schedule

abbrev pub minutes_of_day : Hhmm → ℕ
minutes_of_day t = t.0 * 60 + t.1

abbrev pub in_range : Hhmm → Bool
in_range t = leb t.0 23 && leb t.1 59

abbrev nonempty {ℓ} : {A : Type ℓ} → List A → Bool
nonempty [] = false
nonempty (_ ∷ _) = true

-- `validate_schedule_config`, as a test
unfoldable pub is_valid_schedule : Schedule → Bool
is_valid_schedule (daily times) = nonempty times && all in_range times
is_valid_schedule (interval_minutes minutes) = ltb 0 minutes
is_valid_schedule (window_interval minutes weekdays start_time end_time) =
    ltb 0 minutes
    && nonempty weekdays
    && all (λ d. leb d 6) weekdays
    && in_range start_time
    && in_range end_time
    && ltb (minutes_of_day start_time) (minutes_of_day end_time)
is_valid_schedule (unreadable error) = false
is_valid_schedule unsupported = true

-- One time of a DAILY schedule: today, or tomorrow if it has passed.
abbrev pub daily_candidate : Wall → Hhmm → Wall
daily_candidate current t =
    let candidate = combine (date_of current) (minutes_of_day t) in
    if leb candidate current then candidate + day else candidate

-- `min(candidates)`, which raises on an empty list
abbrev pub least_daily : Wall → List Hhmm → Option Wall
least_daily current [] = none
least_daily current (t ∷ times) =
    let candidate = daily_candidate current t in
    elim (least_daily current times) [
      | none ↦ some candidate
      | some other ↦ some (min candidate other)
    ]

-- The loop `while candidate <= window_end`; the rounds are at most the minutes of a window. Where a sum
-- passes the year 9999 the loop raises: `window_overflows` and `days_overflow` say when, and `next_wall`
-- asks them first.
unfoldable pub window_from : ℕ → Wall → ℕ → Wall → Wall → Option Wall
window_from zero current minutes candidate window_end = none
window_from (suc rounds) current minutes candidate window_end =
    let rest = window_from rounds current minutes (candidate + minutes * minute) window_end in
    if leb candidate window_end
    then if ltb current candidate then some candidate else rest
    else none

abbrev pub elem : ℕ → List ℕ → Bool
elem x xs = any (λ y. y == x) xs

abbrev pub window_rounds : Hhmm → Hhmm → ℕ
window_rounds start_at end_at = suc (minutes_of_day end_at - minutes_of_day start_at)

-- The window of one day
unfoldable pub window_on : Wall → ℕ → Hhmm → Hhmm → ℕ → Option Wall
window_on current minutes start_at end_at date =
    window_from (window_rounds start_at end_at) current minutes
      (combine date (minutes_of_day start_at)) (combine date (minutes_of_day end_at))

-- `for day_offset in range(0, 8)`, from one date on
unfoldable pub days_from : ℕ → Wall → ℕ → List ℕ → Hhmm → Hhmm → ℕ → Option Wall
days_from zero current minutes weekdays start_at end_at date = none
days_from (suc days) current minutes weekdays start_at end_at date =
    let rest = days_from days current minutes weekdays start_at end_at (date + 1) in
    if elem (weekday date) weekdays
    then elim (window_on current minutes start_at end_at date) [
      | none ↦ rest
      | some found ↦ some found
    ]
    else rest

abbrev pub passes_max : Wall → Bool
passes_max w = ltb max_wall w

-- Whether the same loop raises an `OverflowError` before it ends or returns.
unfoldable pub window_overflows : ℕ → Wall → ℕ → Wall → Wall → Bool
window_overflows zero current minutes candidate window_end = false
window_overflows (suc rounds) current minutes candidate window_end =
    let next = candidate + minutes * minute in
    let rest = window_overflows rounds current minutes next window_end in
    leb candidate window_end && not (ltb current candidate) && (passes_max next || rest)

abbrev is_missing : Option Wall → Bool
is_missing none = true
is_missing (some w) = false

-- The same for the days: the date may pass the last one, too.
unfoldable pub days_overflow : ℕ → Wall → ℕ → List ℕ → Hhmm → Hhmm → ℕ → Bool
days_overflow zero current minutes weekdays start_at end_at date = false
days_overflow (suc days) current minutes weekdays start_at end_at date =
    let rest = days_overflow days current minutes weekdays start_at end_at (date + 1) in
    let raises =
      window_overflows (window_rounds start_at end_at) current minutes
        (combine date (minutes_of_day start_at)) (combine date (minutes_of_day end_at)) in
    passes_max (combine date 0)
    || (if elem (weekday date) weekdays
        then raises || (is_missing (window_on current minutes start_at end_at date) && rest)
        else rest)

abbrev or_error : Option Wall → Error → Result Wall
or_error none e = err e
or_error (some w) e = ok w

-- `_next_window_interval`
unfoldable pub next_window_interval : Wall → ℕ → List ℕ → Hhmm → Hhmm → Result Wall
next_window_interval current minutes weekdays start_at end_at =
    or_error (days_from 8 current minutes weekdays start_at end_at (date_of current))
      (validation "No se pudo calcular la siguiente ejecucion")

-- Whether a date past the year 9999 comes up.
unfoldable pub overflows : Schedule → Wall → Bool
overflows (interval_minutes minutes) current = passes_max (current + minutes * minute)
overflows (window_interval minutes weekdays start_at end_at) current =
    days_overflow 8 current minutes weekdays start_at end_at (date_of current)
overflows (daily times) current = any (λ t. passes_max (daily_candidate current t)) times
overflows _ current = false

-- The wall-clock time of the next run, where no date passes the year 9999.
unfoldable pub next_within : Schedule → Wall → Result Wall
next_within (interval_minutes minutes) current = ok (current + minutes * minute)
next_within (window_interval minutes weekdays start_at end_at) current =
    next_window_interval current minutes weekdays start_at end_at
next_within (daily times) current =
    or_error (least_daily current times) (value_error "min() arg is an empty sequence")
next_within (unreadable error) current = err (value_error error)
next_within unsupported current = err (validation "Tipo de calendario no soportado")

-- The wall-clock time of the next run.
unfoldable pub next_wall : Schedule → Wall → Result Wall
next_wall schedule current =
    if overflows schedule current
    then err (overflow_error "date value out of range")
    else next_within schedule current

abbrev pub in_utc : Zone → Result Wall → Result Time
in_utc zone (ok w) = ok (zone.to_instant w)
in_utc zone (err e) = err e

-- `calculate_next_run`; a name that `ZoneInfo` does not know is no zone
unfoldable pub calculate_next_run : Schedule → Option Zone → Time → Result Time
calculate_next_run schedule none after = err (validation "Zona horaria no soportada")
calculate_next_run schedule (some zone) after =
    in_utc zone (next_wall schedule (zone.to_wall after))
