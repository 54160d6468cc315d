-- ===== src/Install.antt =====
-- src/bin/install_data/install_data.c: the lines of the input file become tasks, and the worker thread
-- carries the tasks out on the array of points. The global list of tasks is the sequence of its items,
-- which push_list_item extends and iterate_list walks. What sscanf reads is an argument, and so is
-- the answer of shm_lock.
pub mod Effect
pub mod Loop
pub mod Startup
pub mod Tasks
pub mod Rounds
use legacy_point_monitor.Common.{
  ℕ, suc, ◌+◌, Bool, true, false, Option, none, some, List, [], ◌∷◌, ◌++◌, if◌then◌else◌,
}
use legacy_point_monitor.Common.Int.{ℤ, pos, negsuc}
use legacy_point_monitor.Points.{
  Float, Point, PointTask, bad_index, Line, install_point, invalidate_point, show_points,
}

-- The four items of a line, in the order of the format "%d %f %f %d".
abbrev pub Items : Type 0 → Type 0
Items F = ℤ × F × F × ℤ

-- `abs(delay)`, which C defines for every `int` but the least.
abbrev pub abs : ℤ → ℕ
abs (pos n) = n
abs (negsuc n) = suc n

-- `delay >= 0`
abbrev pub nonnegative : ℤ → Bool
nonnegative (pos n) = true
nonnegative (negsuc n) = false

-- What a task does that can be seen outside: it sleeps, and logs the report on the array.
pub data Event (F : Type 0) : Type 0 where
  slept : ℕ → Event F
  shown : List (Line F) → Event F

module _ {F : Type 0} where
  -- `none` is a line in which sscanf finds fewer than four items.
  unfoldable pub create_entry : List (PointTask F) → Option (Items F) → List (PointTask F)
  create_entry tasks none = tasks
  create_entry tasks (some (index, x, y, delay)) =
      if bad_index index
      then tasks
      else tasks
        ++ record {
          index = index;
          delay = delay;
          point = record { is_valid = pos 1; x = x; y = y };
        }
          ∷ []

  -- The loop over the lines of the file.
  unfoldable pub read_lines : List (PointTask F) → List (Option (Items F)) → List (PointTask F)
  unfolding create_entry
  read_lines tasks [] = tasks
  read_lines tasks (line ∷ lines) = read_lines (create_entry tasks line) lines

  -- The write of a task to the array.
  unfoldable pub apply_task : PointTask F → List (Point F) → List (Point F)
  apply_task t points =
      if nonnegative t.delay
      then install_point points t.index t.point
      else invalidate_point points t.index

  -- process_entry; `locked` is the answer of shm_lock.
  unfoldable pub process_entry :
      Float F → Bool → PointTask F → List (Point F) → List (Point F) × List (Event F)
  unfolding apply_task
  process_entry f locked t points =
      if bad_index t.index
      then (points, slept (abs t.delay) ∷ [])
      else if locked
      then (
        apply_task t points,
        slept (abs t.delay) ∷ shown (show_points f (apply_task t points)) ∷ [],
      )
      else (points, slept (abs t.delay) ∷ [])

  -- `iterate_list(Tasks, process_entry)` in thread_entry_point, with the answers of shm_lock by task.
  unfoldable pub process_all :
      Float F
      → (ℕ → Bool)
      → ℕ
      → List (PointTask F)
      → List (Point F)
      → List (Point F) × List (Event F)
  unfolding process_entry
  process_all f locks idx [] points = (points, [])
  process_all f locks idx (t ∷ tasks) points =
      let (points, first) = process_entry f (locks idx) t points in
      let (points, rest) = process_all f locks (idx + 1) tasks points in (points, first ++ rest)
