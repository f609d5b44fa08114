-- ===== src/Scheduled/Schedule/Window.antt =====
-- A WINDOW_INTERVAL schedule over the days: what the search for a slot gives.
use proyecto.Common.{
  ℕ, zero, suc, ◌+◌, ◌*◌, ◌-◌, ◌%◌, ◌≤◌, ◌<◌, ◌≡◌, ◌≢◌, refl, ◌∙◌, true, false, inl, inr, Option,
  none, some, List, [], ◌∷◌, arith, ltb, leb, ◌==◌, ==_iff, ==-refl, Bool-cases, Option-cases, all,
}
use mathlib.Core.Path.{subst}
use proyecto.Scheduled.Clock.{Wall, minute, weekday, combine}
use proyecto.Scheduled.Schedule.{
  Schedule, Hhmm, minutes_of_day, window_from, window_on, window_rounds, days_from, window_interval,
  is_valid_schedule, elem,
}
use proyecto.Scheduled.Schedule.Laws.{IsFirst, window_from-IsFirst, window_from_passed}

-- The configuration of a window, as `validate_schedule_config` accepts it.
pub record Config : Type 0 where
  pub minutes : ℕ
  pub weekdays : List ℕ
  pub start_time : Hhmm
  pub end_time : Hhmm

abbrev pub schedule_of : Config → Schedule
schedule_of c = window_interval c.minutes c.weekdays c.start_time c.end_time

-- The k-th slot of a day, and the slots of a schedule.
abbrev pub slot_on : Config → ℕ → ℕ → Wall
slot_on c date k = combine date (minutes_of_day c.start_time) + k * (c.minutes * minute)

abbrev pub IsSlotOn : Config → ℕ → Wall → Type 0
IsSlotOn c date w =
    (k : ℕ) × (w ≡ slot_on c date k)
    × (w ≤ combine date (minutes_of_day c.end_time))
    × (elem (weekday date) c.weekdays ≡ true)

abbrev pub IsSlot : Config → Wall → Type 0
IsSlot c w = (date : ℕ) × IsSlotOn c date w

pub record IsValid (c : Config) : Type 0 where
  pub pos : 0 < c.minutes
  pub ordered : minutes_of_day c.start_time < minutes_of_day c.end_time
  pub within : minutes_of_day c.end_time < 1440
  pub first : (d : ℕ) × (d ≤ 6) × (elem d c.weekdays ≡ true)

first_weekday :
    (weekdays : List ℕ)
    → all (λ d. leb d 6) weekdays ≡ true
    → weekdays ≢ []
    → (d : ℕ) × (d ≤ 6) × (elem d weekdays ≡ true)
first_weekday [] h k = absurd (k refl)
first_weekday (d ∷ weekdays) h k = (d, ground (arith), ground (arith, ==-refl d))

pub is_valid_schedule-IsValid : (c : Config) → is_valid_schedule (schedule_of c) ≡ true → IsValid c
unfolding is_valid_schedule
is_valid_schedule-IsValid c h = record {
  pos = ground (arith, h);
  ordered = ground (arith, h);
  within = ground (arith, h);
  first = first_weekday c.weekdays (ground (arith, h)) (λ e. ground (arith, e, h));
}

module _ (c : Config) (current : Wall) where
  abbrev pub on_day : ℕ → Option Wall
  on_day date = window_on current c.minutes c.start_time c.end_time date

  abbrev pub over_days : ℕ → ℕ → Option Wall
  over_days n date = days_from n current c.minutes c.weekdays c.start_time c.end_time date

  -- No slot of this day is later than the instant.
  abbrev pub IsPast : ℕ → Type 0
  IsPast date = (w : Wall) → IsSlotOn c date w → w ≤ current

  pub on_day-IsFirst :
      (date : ℕ) (found : Wall)
      → on_day date ≡ some found
      → IsFirst current
          (c.minutes * minute)
          (combine date (minutes_of_day c.start_time))
          (combine date (minutes_of_day c.end_time))
          found
  unfolding window_on
  on_day-IsFirst date found h =
      window_from-IsFirst (window_rounds c.start_time c.end_time) current c.minutes
        (combine date (minutes_of_day c.start_time)) (combine date (minutes_of_day c.end_time))
        found h

  on_day-IsPast : IsValid c → (date : ℕ) → on_day date ≡ none → IsPast date
  unfolding window_on
  on_day-IsPast v date h w s =
      let (k, at, inside, allowed) = s in
      let passed =
        window_from_passed (window_rounds c.start_time c.end_time) current c.minutes
          (combine date (minutes_of_day c.start_time)) (combine date (minutes_of_day c.end_time))
          v.pos (omega arith) h k (omega (arith, at, inside)) in
      omega (arith, at, passed)

  pub on_day_future :
      IsValid c
      → (date : ℕ) → current < combine date (minutes_of_day c.start_time)
      → on_day date ≢ none
  unfolding window_on window_from
  on_day_future v date later h = ground (arith, v, later, h)

  other_weekday-IsPast : (date : ℕ) → elem (weekday date) c.weekdays ≡ false → IsPast date
  other_weekday-IsPast date off w s = absurd (cc (off, s.3))

  -- What the search over the days gives.
  pub record IsNext (from found : ℕ) : Type 0 where
    pub slot : IsSlot c found
    pub later : current < found
    pub earlier : (date : ℕ) → from ≤ date → date < (slot).0 → IsPast date
    pub same_day : (w : Wall) → IsSlotOn c (slot).0 w → current < w → found ≤ w
    pub bounded : from ≤ (slot).0

  IsNext-here :
      (from found : ℕ)
      → elem (weekday from) c.weekdays ≡ true
      → on_day from ≡ some found
      → IsNext from found
  IsNext-here from found allowed h =
      let f = on_day-IsFirst from found h in
      record {
        slot = (from, ((f.slot).0, (f.slot).1, f.inside, allowed));
        later = f.later;
        earlier = λ date a b. absurd (omega arith);
        same_day = λ w s l. omega (arith, s.1, f.least s.0 (omega (arith, s.1)));
        bounded = omega arith;
      }

  IsNext-after : (from found : ℕ) → IsPast from → IsNext (from + 1) found → IsNext from found
  IsNext-after from found past n = record {
    slot = n.slot;
    later = n.later;
    earlier = λ date a b. elim (Bool-cases (from == date)) [
      | inl same ↦ subst IsPast ((==_iff from date).0 same) past
      | inr differs ↦ n.earlier date (ground (arith, a, differs)) b
    ];
    same_day = n.same_day;
    bounded = omega (arith, n.bounded);
  }

  IsNext-skip :
      (from found : ℕ)
      → IsValid c
      → on_day from ≡ none
      → IsNext (from + 1) found
      → IsNext from found
  IsNext-skip from found v h n = IsNext-after from found (on_day-IsPast v from h) n

  pub over_days-IsNext :
      (n from found : ℕ) → IsValid c → over_days n from ≡ some found → IsNext from found
  unfolding days_from
  over_days-IsNext zero from found v h = absurd (cc)
  over_days-IsNext (suc n) from found v h = elim (Bool-cases (elem (weekday from) c.weekdays)) [
    | inl allowed ↦ elim (Option-cases (on_day from)) [
      | inl past ↦
          IsNext-skip from found v past
            (over_days-IsNext n (from + 1) found v (rw (allowed, past) at h))
      | inr (w, here) ↦ IsNext-here from found allowed (here ∙ rw (allowed, here) at h)
    ]
    | inr off ↦
        IsNext-after from found (other_weekday-IsPast from off)
          (over_days-IsNext n (from + 1) found v (rw off at h))
  ]

  pub over_days-none :
      (n from date : ℕ)
      → over_days n from ≡ none
      → from ≤ date
      → date < from + n
      → elem (weekday date) c.weekdays ≡ true
      → on_day date ≡ none
  unfolding days_from
  over_days-none zero from date h a b allowed = absurd (omega arith)
  over_days-none (suc n) from date h a b allowed = elim (Bool-cases (from == date)) [
    | inl same ↦ let here = (==_iff from date).0 same in ground (arith, here, h, allowed)
    | inr differs ↦
        over_days-none n (from + 1) date (ground (arith, h)) (ground (arith, a, differs))
          (omega arith) allowed
  ]

-- Every weekday comes within the week after a date.
pub weekday_within : (date d : ℕ) → d ≤ 6 → (j : ℕ) × (0 < j) × (j < 8) × (weekday (date + j) ≡ d)
weekday_within date d h = elim (Bool-cases (ltb (date % 7) d)) [
  | inl before ↦ (d - date % 7, ground (arith, before), omega arith, ground (arith, before, h))
  | inr after ↦ (7 + d - date % 7, omega arith, ground (arith, after), ground (arith, after, h))
]
