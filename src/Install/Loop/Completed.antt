-- ===== src/Install/Loop/Completed.antt =====
-- A file of tasks, from its lines to the array.
use legacy_point_monitor.Common.{
  ℕ, ◌+◌, ◌≡◌, refl, ap, ◌∙◌, true, Option, List, [], ◌∷◌, length, get_or,
}
use legacy_point_monitor.Points.{max_num_points, Float, Point, PointTask}
use legacy_point_monitor.Install.{Items, read_lines}
use legacy_point_monitor.Install.Effect.{granted, left_by, read-InRange, process-left}
use legacy_point_monitor.Install.Loop.{Main, State, start}
use legacy_point_monitor.Install.Loop.Measure.{Run}
use legacy_point_monitor.Install.Loop.Installed.{destroyed-installed}

module _ {F : Type 0} where
  granted-all : (idx : ℕ) (tasks : List (PointTask F)) → granted (λ i. true) idx tasks ≡ tasks
  granted-all idx [] = refl
  granted-all idx (t ∷ tasks) = ap (λ ts. t ∷ ts) (granted-all (idx + 1) tasks)

  -- Without signals, and with no wake-up but by a signal of the condition: whenever install_data has
  -- removed the segment, its array of 20 points had at each index what the tasks for that index, of
  -- the lines that have four items and an index in range, leave of the point that was there, in
  -- their order.
  pub file-installed :
      (f : Float F) (lines : List (Option (Items F))) (points : List (Point F)) (n : ℕ)
      (t : State F) (i : ℕ) (d : Point F)
      → length points ≡ max_num_points
      → Run f (read_lines [] lines) (start f (read_lines [] lines) [] points) n t
      → t.main ≡ Main.destroyed
      → get_or t.points i d ≡ left_by (read_lines [] lines) i (get_or points i d)
  file-installed f lines points n t i d size run over =
      let tasks = read_lines [] lines in
      ap (λ (ps : List (Point F)). get_or ps i d) (destroyed-installed f tasks points n t run over)
      ∙ process-left f (λ k. true) 0 tasks points i d (read-InRange [] lines tt) size
      ∙ ap (λ ts. left_by ts i (get_or points i d)) (granted-all 0 tasks)
