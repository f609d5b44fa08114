-- ===== src/Scheduled/Schedule/Daily.antt =====
-- The next run of a DAILY schedule.
use proyecto.Common.{
  ℕ, ◌+◌, ◌≤◌, ◌<◌, ◌≡◌, ◌⊎◌, refl, sym, Bool, true, false, ◌&&◌, inl, inr, some, List, [], ◌∷◌,
  arith, leb, ◌==◌, ==-refl, Bool-cases, all, any, min,
}
use mathlib.Core.Path.{subst}
use proyecto.Core.Errors.{ok}
use proyecto.Jobs.Model.{Time}
use proyecto.Scheduled.Clock.{Wall, max_wall, day, date_of, combine, Zone, KeepsOrder}
use proyecto.Scheduled.Schedule.{
  daily, Hhmm, minutes_of_day, in_range, is_valid_schedule, daily_candidate, least_daily, next_wall,
  next_within, passes_max, overflows, calculate_next_run,
}

abbrev is_time : Hhmm → Hhmm → Bool
is_time t u = u.0 == t.0 && u.1 == t.1

-- A time of the schedule on some day.
abbrev pub IsDailyTime : List Hhmm → Wall → Type 0
IsDailyTime times w =
    (date : ℕ) × ((t : Hhmm) × (any (is_time t) times ≡ true)
      × (w ≡ combine date (minutes_of_day t)))

candidate_later :
    (current : Wall) (t : Hhmm) → in_range t ≡ true → current < daily_candidate current t
candidate_later current t h = ground (arith, h)

candidate_day :
    (current : Wall) (t : Hhmm)
    → (date : ℕ) × (daily_candidate current t ≡ combine date (minutes_of_day t))
candidate_day current t =
    elim (Bool-cases (leb (combine (date_of current) (minutes_of_day t)) current)) [
      | inl passed ↦ (date_of current + 1, ground (arith, passed))
      | inr ahead ↦ (date_of current, ground (arith, ahead))
    ]

candidate_least :
    (current : Wall) (t : Hhmm) (date : ℕ)
    → in_range t ≡ true
    → current < combine date (minutes_of_day t)
    → daily_candidate current t ≤ combine date (minutes_of_day t)
candidate_least current t date h later = ground (arith, h, later)

is_time_refl : (t : Hhmm) → is_time t t ≡ true
is_time_refl t = ground (arith, ==-refl t.0, ==-refl t.1)

-- The first time of the schedule after an instant.
record IsFirstDaily (current : Wall) (times : List Hhmm) (found : Wall) : Type 0 where
  daily_time : IsDailyTime times found
  later : current < found
  least : (w : Wall) → IsDailyTime times w → current < w → found ≤ w

weaken_time :
    (t : Hhmm) (times : List Hhmm) (w : Wall) → IsDailyTime times w → IsDailyTime (t ∷ times) w
weaken_time t times w (date, (u, listed, at)) = (date, (u, ground (arith, listed), at))

candidate_time :
    (current : Wall) (t : Hhmm) (times : List Hhmm)
    → IsDailyTime (t ∷ times) (daily_candidate current t)
candidate_time current t times =
    let (date, at) = candidate_day current t in (date, (t, ground (arith, is_time_refl t), at))

same_time : (t u : Hhmm) → is_time u t ≡ true → minutes_of_day t ≡ minutes_of_day u
same_time t u h = ground (arith, h)

-- Either the time of the candidate, or one of the others.
split_time :
    (t : Hhmm) (times : List Hhmm) (w : Wall)
    → IsDailyTime (t ∷ times) w
    → ((date : ℕ) × (w ≡ combine date (minutes_of_day t))) ⊎ IsDailyTime times w
split_time t times w (date, (u, listed, at)) = elim (Bool-cases (is_time u t)) [
  | inl same ↦ inl (date, omega (arith, at, same_time t u same))
  | inr differs ↦ inr (date, (u, ground (arith, listed, differs), at))
]

min_cases : (a b : ℕ) → (min a b ≡ a) ⊎ (min a b ≡ b)
min_cases a b = elim (Bool-cases (leb a b)) [
  | inl le ↦ inl (ground (arith, le))
  | inr gt ↦ inr (ground (arith, gt))
]

module _ (current : Wall) where
  one_least :
      (t : Hhmm) (found w : Wall)
      → in_range t ≡ true
      → found ≤ daily_candidate current t
      → (date : ℕ) × (w ≡ combine date (minutes_of_day t))
      → current < w
      → found ≤ w
  one_least t found w h le (date, at) later =
      omega (arith, le, at, candidate_least current t date h (omega (arith, at, later)))

  IsFirstDaily-one :
      (t : Hhmm) → in_range t ≡ true → IsFirstDaily current (t ∷ []) (daily_candidate current t)
  IsFirstDaily-one t h = record {
    daily_time = candidate_time current t [];
    later = candidate_later current t h;
    least = λ w s l. elim (split_time t [] w s) [
      | inl here ↦ one_least t (daily_candidate current t) w h (omega arith) here l
      | inr none_left ↦ absurd (cc (none_left.1.1))
    ];
  }

  IsFirstDaily-more :
      (t : Hhmm) (times : List Hhmm) (other : Wall)
      → in_range t ≡ true
      → IsFirstDaily current times other
      → IsFirstDaily current (t ∷ times) (min (daily_candidate current t) other)
  IsFirstDaily-more t times other h f = record {
    daily_time = elim (min_cases (daily_candidate current t) other) [
      | inl same ↦ subst (IsDailyTime (t ∷ times)) (sym same) (candidate_time current t times)
      | inr same ↦
          subst (IsDailyTime (t ∷ times)) (sym same) (weaken_time t times other f.daily_time)
    ];
    later = omega (arith, candidate_later current t h, f.later);
    least = λ w s l. elim (split_time t times w s) [
      | inl here ↦ one_least t (min (daily_candidate current t) other) w h (omega arith) here l
      | inr there ↦ omega (arith, f.least w there l)
    ];
  }

  first_daily :
      (t : Hhmm) (times : List Hhmm)
      → all in_range (t ∷ times) ≡ true
      → (found : Wall) × (least_daily current (t ∷ times) ≡ some found)
        × IsFirstDaily current (t ∷ times) found
  first_daily t [] h = (daily_candidate current t, refl, IsFirstDaily-one t (ground (arith, h)))
  first_daily t (u ∷ times) h =
      let (other, there, f) = first_daily u times (ground (arith, h)) in
      (
        min (daily_candidate current t) other,
        rw there,
        IsFirstDaily-more t (u ∷ times) other (ground (arith, h)) f,
      )

-- No candidate passes the year 9999.
daily_fits :
    (times : List Hhmm) (current : Wall)
    → all in_range times ≡ true
    → current + day ≤ max_wall
    → any (λ t. passes_max (daily_candidate current t)) times ≡ false
daily_fits [] current h near = refl
daily_fits (t ∷ times) current h near =
    ground (arith, near, h, daily_fits times current (ground (arith, h)) near)

-- The next run of a valid DAILY schedule on the wall clock.
pub daily_wall :
    (times : List Hhmm) (current : Wall)
    → is_valid_schedule (daily times) ≡ true
    → (found : Wall) × (next_within (daily times) current ≡ ok found)
      × IsDailyTime times found
      × (current < found)
      × ((w : Wall) → IsDailyTime times w → current < w → found ≤ w)
unfolding next_within is_valid_schedule
daily_wall [] current h = absurd (cc)
daily_wall (t ∷ times) current h =
    let (found, there, f) = first_daily current t times (ground (arith, h)) in
    (found, rw there, f.daily_time, f.later, f.least)

-- The next run of a valid DAILY schedule, in a zone that keeps the order of the clock, where the day
-- after the instant does not pass the year 9999: it exists and is later than the instant; by the wall
-- clock it is one of its times on some day, and the first of all that the clock has yet to show.
pub next_daily_first :
    (times : List Hhmm) (zone : Zone) (after : Time)
    → let current = zone.to_wall after in
      is_valid_schedule (daily times) ≡ true
      → KeepsOrder zone
      → current + day ≤ max_wall
      → (found : Wall) × (calculate_next_run (daily times) (some zone) after
          ≡ ok (zone.to_instant found))
        × (after < zone.to_instant found)
        × IsDailyTime times found
        × (current < found)
        × ((w : Wall) → IsDailyTime times w → current < w → found ≤ w)
unfolding calculate_next_run next_wall overflows is_valid_schedule
next_daily_first times zone after h order near =
    let current = zone.to_wall after in
    let (found, there, of_day, later, least) = daily_wall times current h in
    (
      found,
      rw (daily_fits times current (ground (arith, h)) near, there) refl,
      order.later after found later,
      of_day,
      later,
      least,
    )
