-- ===== src/Monitor.antt =====
-- src/bin/monitor_shm/monitor_shm.c: the countdown that reports on the shared points once a second.
-- Signals enter as the value of `Running` at each test of the loop, and the answers of atoi,
-- connect_shm and shm_lock are arguments.
pub mod Countdown
pub mod Signals
pub mod Program
pub mod Attached
pub mod Completed
pub mod Refused
pub mod Returned
use legacy_point_monitor.Common.{
  ℕ, zero, suc, ◌+◌, Bool, Option, none, some, List, [], ◌∷◌, ◌++◌, if◌then◌else◌,
}
use legacy_point_monitor.Common.Int.{ℤ, pos, negsuc, minus_one}
use legacy_point_monitor.Points.{Float, Point, Line, show_points}

abbrev pub default_duration : ℤ
default_duration = pos 600

-- What the program does, in order: `connecting` is the call of connect_shm, `segments_shown` the list of
-- the segments that it logs next, in a pair of shm_lock and shm_unlock whose answers it ignores.
pub data Action (F : Type 0) : Type 0 where
  connecting segments_shown seconds_left lock_lost unlocked slept detached : Action F
  shown : List (Line F) → Action F

-- `argc == 2`, with what atoi makes of the argument.
abbrev pub duration : Option ℤ → ℤ
duration none = default_duration
duration (some seconds) = seconds

-- What the program meets: is `Running` still true at the test before round `i`, does shm_lock succeed
-- in round `i`, and the points that are in the segment then.
pub record Rounds (F : Type 0) : Type 0 where
  pub running : ℕ → Bool
  pub lock : ℕ → Bool
  pub points : ℕ → List (Point F)

module _ {F : Type 0} (f : Float F) (r : Rounds F) where
  -- The body of the loop in round `i`.
  unfoldable pub round : ℕ → List (Action F)
  round i =
      if r.lock i
      then seconds_left ∷ shown (show_points f (r.points i)) ∷ unlocked ∷ slept ∷ []
      else seconds_left ∷ lock_lost ∷ shown (show_points f (r.points i)) ∷ slept ∷ []

  -- `while (seconds > 0 && Running == true)`, from round `i`; what follows is `after`.
  unfoldable pub countdown : ℕ → ℕ → List (Action F) → List (Action F)
  unfolding round
  countdown zero i after = after
  countdown (suc seconds) i after =
      let rest = countdown seconds (i + 1) after in if r.running i then round i ++ rest else after

  -- From the connection on; the exit status comes last.
  unfoldable pub monitor_for : ℤ → Bool → List (Action F) × ℤ
  monitor_for (pos zero) attached = ([], minus_one)
  monitor_for (pos (suc n)) attached =
      if attached
      then (connecting ∷ segments_shown ∷ countdown (suc n) 0 (detached ∷ []), pos 0)
      else (connecting ∷ segments_shown ∷ [], pos 1)
  monitor_for (negsuc n) attached = ([], minus_one)

  -- `main`: the argument, and whether connect_shm gave an address.
  unfoldable pub monitor_main : Option ℤ → Bool → List (Action F) × ℤ
  unfolding countdown monitor_for
  monitor_main arg attached = monitor_for (duration arg) attached
