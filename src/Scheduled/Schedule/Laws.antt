-- ===== src/Scheduled/Schedule/Laws.antt =====
-- The window of one day of a WINDOW_INTERVAL schedule: the first of its slots after an instant.
use mathlib.Core.Path.{subst}
use native.Mathlib.Nat.{suc-mul, zero-mul}
use proyecto.Common.{
  ℕ, zero, suc, ◌+◌, ◌*◌, ◌≤◌, ◌<◌, ◌≡◌, inl, inr, none, some, arith, ltb, leb, Bool-cases, ltb→lt,
  leb→le,
}
use proyecto.Scheduled.Clock.{minute}
use proyecto.Scheduled.Schedule.{window_from}

-- What the loop gives: a slot, not after the end of the window, after the instant, and the first of
-- these.
pub record IsFirst (current step candidate window_end found : ℕ) : Type 0 where
  pub slot : (k : ℕ) × (found ≡ candidate + k * step)
  pub inside : found ≤ window_end
  pub later : current < found
  pub least : (j : ℕ) → current < candidate + j * step → found ≤ candidate + j * step

module _ (current step candidate window_end found : ℕ) where
  IsFirst-here :
      candidate ≤ window_end
      → current < candidate
      → IsFirst current step candidate window_end candidate
  IsFirst-here h k = record {
    slot = (0, omega (arith, zero-mul step));
    inside = h;
    later = k;
    least = λ j _. omega arith;
  }

  first_least :
      candidate ≤ current
      → IsFirst current step (candidate + step) window_end found
      → (j : ℕ) → current < candidate + j * step
      → found ≤ candidate + j * step
  first_least h f zero k = absurd (omega (arith, zero-mul step))
  first_least h f (suc j) k =
      omega (arith, suc-mul j step, f.least j (omega (arith, suc-mul j step)))

  IsFirst-next :
      candidate ≤ current
      → IsFirst current step (candidate + step) window_end found
      → IsFirst current step candidate window_end found
  IsFirst-next h f = record {
    slot = ((f.slot).0 + 1, omega (arith, (f.slot).1, suc-mul (f.slot).0 step));
    inside = f.inside;
    later = f.later;
    least = first_least h f;
  }

some_inj : (a b : ℕ) → some a ≡ some b → a ≡ b
some_inj a b h = ground arith

pub window_from-IsFirst :
    (rounds current minutes candidate window_end found : ℕ)
    → window_from rounds current minutes candidate window_end ≡ some found
    → IsFirst current (minutes * minute) candidate window_end found
unfolding window_from
window_from-IsFirst zero current minutes candidate window_end found h = absurd (cc)
window_from-IsFirst (suc rounds) current minutes candidate window_end found h =
    elim (Bool-cases (leb candidate window_end)) [
      | inl inside ↦ elim (Bool-cases (ltb current candidate)) [
        | inl later ↦
            subst (λ w. IsFirst current (minutes * minute) candidate window_end w)
              (some_inj candidate found (rw (inside, later) at h))
              (IsFirst-here current (minutes * minute) candidate window_end candidate
                (leb→le candidate window_end inside) (ltb→lt current candidate later))
        | inr past ↦
            IsFirst-next current (minutes * minute) candidate window_end found (ground arith) (
              window_from-IsFirst rounds current minutes (candidate + minutes * minute) window_end
                found (rw (inside, past) at h))
      ]
      | inr outside ↦ absurd (ground (arith, outside, h))
    ]

passed_step :
    (current step candidate window_end : ℕ)
    → candidate ≤ current
    → ((j : ℕ) → candidate + step + j * step ≤ window_end → candidate + step + j * step ≤ current)
    → (j : ℕ) → candidate + j * step ≤ window_end
    → candidate + j * step ≤ current
passed_step current step candidate window_end past rest zero inside = omega (arith, zero-mul step)
passed_step current step candidate window_end past rest (suc j) inside =
    omega (arith, suc-mul j step, rest j (omega (arith, suc-mul j step)))

-- With enough rounds a loop that gives nothing has seen every slot, and all of them have passed.
pub window_from_passed :
    (rounds current minutes candidate window_end : ℕ)
    → 0 < minutes
    → window_end < candidate + rounds * minute
    → window_from rounds current minutes candidate window_end ≡ none
    → (j : ℕ) → candidate + j * (minutes * minute) ≤ window_end
    → candidate + j * (minutes * minute) ≤ current
unfolding window_from
window_from_passed zero current minutes candidate window_end pos enough h j inside =
    absurd (omega arith)
window_from_passed (suc rounds) current minutes candidate window_end pos enough h j inside =
    elim (Bool-cases (leb candidate window_end)) [
      | inl open_window ↦ elim (Bool-cases (ltb current candidate)) [
        | inl later ↦ absurd (ground (arith, open_window, later, h))
        | inr past ↦
            passed_step current (minutes * minute) candidate window_end (ground arith)
              (window_from_passed rounds current minutes (candidate + minutes * minute) window_end
                pos (omega arith) (rw (open_window, past) at h))
              j inside
      ]
      | inr outside ↦ absurd (ground (arith, outside, inside))
    ]
