-- ===== src/Tests/Points.antt =====
-- A short file of tasks, and the monitor's countdown, with natural numbers in the place of floats.
use legacy_point_monitor.Common.{
  ℕ, zero, suc, ◌+◌, ◌≡◌, refl, Bool, Option, none, some, List, [], ◌∷◌, arith, replicate, ltb, inr,
}
use legacy_point_monitor.Common.Int.{pos, negsuc}
use legacy_point_monitor.Points.{Float, Point, PointTask, show_points, stats, entry, last_entry}
use legacy_point_monitor.Points.Report.{valid_entries, report, show-report}
use legacy_point_monitor.Install.{Items, read_lines}
use legacy_point_monitor.Monitor.{Rounds}
use legacy_point_monitor.Monitor.Countdown.{StopsAt}

abbrev pub floats : Float ℕ
floats = record { zero = 0; plus = λ x y. x + y; over = λ x n. x }

abbrev pub no_point : Point ℕ
no_point = record { is_valid = pos 0; x = 0; y = 0 }

abbrev pub blank : List (Point ℕ)
blank = replicate 20 no_point

-- A point for index 3, a line that does not parse, an index out of range, and index 3 again after two
-- seconds, to be made invalid.
abbrev pub file : List (Option (Items ℕ))
file =
    some (pos 3, 10, 20, pos 1)
    ∷ none
    ∷ some (pos 20, 1, 1, pos 0)
    ∷ some (pos 3, 0, 0, negsuc 1)
    ∷ []

abbrev tasks : List (PointTask ℕ)
tasks =
    record { index = pos 3; delay = pos 1; point = record { is_valid = pos 1; x = 10; y = 20 } }
    ∷ record { index = pos 3; delay = negsuc 1; point = record { is_valid = pos 1; x = 0; y = 0 } }
    ∷ []

parsed : read_lines [] file ≡ tasks
unfolding read_lines
parsed = refl

abbrev first_only : ℕ → Bool
first_only i = ltb i 1

abbrev pub some_points : List (Point ℕ)
some_points =
    record { is_valid = pos 1; x = 1; y = 2 }
    ∷ no_point
    ∷ record { is_valid = pos 1; x = 3; y = 4 }
    ∷ []

show-report_example : show_points floats some_points ≡ report floats (valid_entries 0 some_points)
show-report_example = show-report floats some_points

shown_points :
    show_points floats some_points
    ≡ stats 2 4 6
      ∷ entry 0 (record { is_valid = pos 1; x = 1; y = 2 })
      ∷ last_entry 2 (record { is_valid = pos 1; x = 3; y = 4 })
      ∷ []
unfolding show_points
shown_points = refl

-- `Running` is true at the first two tests, and false at the third.
abbrev pub interrupted : Rounds ℕ
interrupted = record { running = λ i. ltb i 2; lock = λ i. ltb i 1; points = λ i. some_points }

pub interrupted-StopsAt : StopsAt interrupted 5 0 2
interrupted-StopsAt = record {
  within = omega arith;
  runs = elim [
    | zero ↦ λ lt. refl
    | suc zero ↦ λ lt. refl
    | suc (suc j) ↦ λ lt. absurd (omega (arith, lt))
  ];
  stops = inr refl;
}
