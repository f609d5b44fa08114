-- ===== src/Scheduled/Config.antt =====
-- Reading `schedule_config`, a JSON object, as the fields that its kind uses: the look-ups of
-- app/api/scheduled_jobs/schedule.py and of `validate_schedule_config`
-- (app/api/scheduled_jobs/schemas.py). The digits are those of ASCII. Negative numbers, and times that
-- `int()` reads but `isdigit()` does not accept, are unreadable here: the validation refuses them, and
-- the rows are written through it.
use proyecto.Common.Chars.{codes}
use proyecto.Common.{
  ℕ, ◌+◌, ◌*◌, ◌-◌, String, Bool, ◌&&◌, Option, none, some, List, [], ◌∷◌, ◌==◌, leb, if◌then◌else◌,
}
use proyecto.Common.Value.{Dict, Value, Elements, element, no_more, get}
use proyecto.Scheduled.Schedule.{
  Hhmm, in_range, Schedule, daily, interval_minutes, window_interval, unreadable,
}

pub data ScheduledJobScheduleKind : Type 0 where
  daily_kind interval_minutes_kind window_interval_kind : ScheduledJobScheduleKind

abbrev is_digit : ℕ → Bool
is_digit c = leb 48 c && leb c 57

-- The number that some digits write, read from the left; no digits are no number.
abbrev number_from : ℕ → List ℕ → Option ℕ
number_from n [] = some n
number_from n (c ∷ rest) =
    let found = number_from (n * 10 + (c - 48)) rest in if is_digit c then found else none

abbrev number : List ℕ → Option ℕ
number [] = none
number (c ∷ rest) = number_from 0 (c ∷ rest)

-- The parts before and after the first colon.
abbrev before_colon : List ℕ → List ℕ
before_colon [] = []
before_colon (c ∷ rest) = let part = before_colon rest in if c == 58 then [] else c ∷ part

abbrev after_colon : List ℕ → Option (List ℕ)
after_colon [] = none
after_colon (c ∷ rest) = let part = after_colon rest in if c == 58 then some rest else part

abbrev both : Option ℕ → Option ℕ → Option Hhmm
both none m = none
both (some h) none = none
both (some h) (some m) = if in_range (h, m) then some (h, m) else none

-- `"HH:MM"`: `time(hour=..., minute=...)` raises out of range, and a second colon is no digit.
unfoldable pub parse_time : String → Option Hhmm
parse_time text = elim (after_colon (codes text)) [
  | none ↦ none
  | some minute_part ↦ both (number (before_colon (codes text))) (number minute_part)
]

abbrev time_of : Option Value → Option Hhmm
time_of (some (Value.text text)) = parse_time text
time_of _ = none

-- A Python `bool` is an `int`. A negative number, which the validation refuses, is not read.
abbrev number_of : Option Value → Option ℕ
number_of (some (Value.int n)) = some n
number_of (some (Value.bool b)) = some (if b then 1 else 0)
number_of _ = none

abbrev cons_of {ℓ} : {A : Type ℓ} → Option A → Option (List A) → Option (List A)
cons_of (some x) (some xs) = some (x ∷ xs)
cons_of _ _ = none

abbrev times_of : Elements → Option (List Hhmm)
times_of no_more = some []
times_of (element v rest) = cons_of (time_of (some v)) (times_of rest)

abbrev numbers_of : Elements → Option (List ℕ)
numbers_of no_more = some []
numbers_of (element v rest) = cons_of (number_of (some v)) (numbers_of rest)

-- `schedule_config.get("weekdays", [0, 1, 2, 3, 4])`
abbrev weekdays_of : Option Value → Option (List ℕ)
weekdays_of none = some (0 ∷ 1 ∷ 2 ∷ 3 ∷ 4 ∷ [])
weekdays_of (some (Value.list xs)) = numbers_of xs
weekdays_of (some _) = none

abbrev daily_of : Option Value → Schedule
daily_of (some (Value.list xs)) = elim (times_of xs) [
  | none ↦ unreadable "times"
  | some times ↦ daily times
]
daily_of _ = unreadable "times"

abbrev interval_of : Option ℕ → Schedule
interval_of none = unreadable "minutes"
interval_of (some minutes) = interval_minutes minutes

abbrev window_of : Option ℕ → Option (List ℕ) → Option Hhmm → Option Hhmm → Schedule
window_of (some minutes) (some weekdays) (some start_at) (some end_at) =
    window_interval minutes weekdays start_at end_at
window_of _ _ _ _ = unreadable "window"

unfoldable pub read_schedule : ScheduledJobScheduleKind → Dict → Schedule
unfolding parse_time get
read_schedule daily_kind config = daily_of (get config "times")
read_schedule interval_minutes_kind config = interval_of (number_of (get config "minutes"))
read_schedule window_interval_kind config =
    window_of (number_of (get config "minutes")) (weekdays_of (get config "weekdays"))
      (time_of (get config "start_time")) (time_of (get config "end_time"))
