-- ===== src/Points.antt =====
-- src/lib/store/point.c and include/point.h: points in an array, and the report on them. There are no
-- floats here: their type and operations are a parameter. A line of the log is a value.
pub mod Report
use legacy_point_monitor.Common.{
  ℕ, zero, suc, ◌+◌, ◌-◌, Bool, true, false, List, [], ◌∷◌, set, ltb, ◌==◌, if◌then◌else◌,
}
use legacy_point_monitor.Common.Int.{ℤ, pos, negsuc, ◌==ℤ◌}

abbrev pub max_num_points : ℕ
max_num_points = 20

-- The operations of `float` that the program uses: 0, `+`, and the division by an `int`.
pub record Float (F : Type 0) : Type 0 where
  pub zero : F
  pub plus : F → F → F
  pub over : F → ℕ → F

pub record Point (F : Type 0) : Type 0 where
  pub is_valid : ℤ
  pub x : F
  pub y : F

pub record PointTask (F : Type 0) : Type 0 where
  pub index : ℤ
  pub delay : ℤ
  pub point : Point F

-- `index < 0 || index >= MAX_NUM_POINTS`
abbrev pub bad_index : ℤ → Bool
bad_index (pos n) = if ltb n max_num_points then false else true
bad_index (negsuc n) = true

-- The element of the array at an index that was checked.
abbrev pub offset : ℤ → ℕ
offset (pos n) = n
offset (negsuc n) = 0

-- The variables of the first loop of show_points.
pub record Sums (F : Type 0) : Type 0 where
  pub valid_points : ℕ
  pub sum_x : F
  pub sum_y : F

-- The lines that show_points logs: the count and the two averages, a point, the last point, and the
-- line for an array with no valid point.
pub data Line (F : Type 0) : Type 0 where
  stats : ℕ → F → F → Line F
  entry : ℕ → Point F → Line F
  last_entry : ℕ → Point F → Line F
  no_stats : Line F

-- The line that show_task logs: the index, the delay, the flag, x and y.
pub record TaskLine (F : Type 0) : Type 0 where
  pub idx : ℤ
  pub delay : ℤ
  pub is_valid : ℤ
  pub x : F
  pub y : F

module _ {F : Type 0} where
  abbrev pub show_task : PointTask F → TaskLine F
  show_task task = record {
    idx = task.index;
    delay = task.delay;
    is_valid = task.point.is_valid;
    x = task.point.x;
    y = task.point.y;
  }

  unfoldable pub install_point : List (Point F) → ℤ → Point F → List (Point F)
  install_point points index p = if bad_index index then points else set points (offset index) p

  -- Clearing `is_valid` of the element at `i`.
  unfoldable pub clear_valid : List (Point F) → ℕ → List (Point F)
  clear_valid [] i = []
  clear_valid (p ∷ points) zero = record p { is_valid = pos 0 } ∷ points
  clear_valid (p ∷ points) (suc i) = p ∷ clear_valid points i

  unfoldable pub invalidate_point : List (Point F) → ℤ → List (Point F)
  unfolding clear_valid
  invalidate_point points index =
      if bad_index index then points else clear_valid points (offset index)

  -- `point->is_valid == 1`
  abbrev pub valid : Point F → Bool
  valid p = p.is_valid ==ℤ pos 1

  -- The first loop of show_points.
  unfoldable pub collect : Float F → List (Point F) → Sums F → Sums F
  collect f [] s = s
  collect f (p ∷ points) s = collect f points (
      if valid p
      then record {
        valid_points = s.valid_points + 1;
        sum_x = f.plus s.sum_x p.x;
        sum_y = f.plus s.sum_y p.y;
      }
      else s)

  -- The second loop, with the index and the number of valid points that are left.
  unfoldable pub print_points : ℕ → ℕ → List (Point F) → List (Line F)
  print_points idx left [] = []
  print_points idx left (p ∷ points) =
      let skipped = print_points (idx + 1) left points in
      let printed = print_points (idx + 1) (left - 1) points in
      if valid p
      then (if left - 1 == 0 then last_entry idx p else entry idx p) ∷ printed
      else skipped

  -- show_points on the array of `max` points.
  unfoldable pub show_points : Float F → List (Point F) → List (Line F)
  unfolding collect print_points
  show_points f points =
      let s = collect f points (record { valid_points = 0; sum_x = f.zero; sum_y = f.zero }) in
      if ltb 0 s.valid_points
      then stats s.valid_points (f.over s.sum_x s.valid_points) (f.over s.sum_y s.valid_points)
        ∷ print_points 0 s.valid_points points
      else no_stats ∷ []
