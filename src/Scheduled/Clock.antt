-- ===== src/Scheduled/Clock.antt =====
-- Instants and wall-clock times. An instant (`datetime` in UTC) is a number of microseconds, and so is
-- the reading of a wall clock (a naive `datetime`), counted from the Monday 1 January of the year 1.
-- What `ZoneInfo` converts is a parameter, a Zone.
use proyecto.Common.{ℕ, ◌+◌, ◌*◌, ◌/◌, ◌%◌, ◌<◌}
use proyecto.Jobs.Model.{Time}

abbrev pub Wall : Type 0
Wall = ℕ

-- Microseconds of a minute and of a day.
abbrev pub minute : ℕ
minute = 60000000

abbrev pub day : ℕ
day = 86400000000

-- `datetime.max`, at the end of the year 9999
abbrev pub max_wall : Wall
max_wall = 315537897599999999

-- `current.date()` as a number of days, and `date.weekday()`, where Monday is 0
abbrev pub date_of : Wall → ℕ
date_of w = w / day

abbrev pub weekday : ℕ → ℕ
weekday date = date % 7

-- `datetime.combine(date, time)`, the time in minutes
abbrev pub combine : ℕ → ℕ → Wall
combine date minutes = date * day + minutes * minute

pub record Zone : Type 0 where
  pub to_wall : Time → Wall
  pub to_instant : Wall → Time

-- A later reading of the clock is a later instant: so in a zone that never sets its clocks back, such
-- as `America/Lima`.
pub record KeepsOrder (zone : Zone) : Type 0 where
  pub later : (t : Time) (w : Wall) → zone.to_wall t < w → t < zone.to_instant w
