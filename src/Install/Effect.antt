-- ===== src/Install/Effect.antt =====
-- What the tasks of a file do to the array: each element is left as the tasks for its index leave it.
use native.Mathlib.Nat.{add-zero}
use legacy_point_monitor.Common.{
  ℕ, zero, suc, ◌+◌, ◌<◌, ◌≡◌, ◌≢◌, refl, sym, ap, ◌∙◌, Bool, true, false, Option, none, some, List,
  [], ◌∷◌, ◌++◌, ◌==◌, if◌then◌else◌, arith, length, get_or, set, get_or-set_self, get_or-set_ne,
  length-set, Bool-cases, ℕ-cases, inl, inr,
}
use legacy_point_monitor.Common.Int.{ℤ, pos, negsuc}
use legacy_point_monitor.Points.{
  max_num_points, Float, Point, PointTask, bad_index, offset, install_point, invalidate_point,
  clear_valid,
}
use legacy_point_monitor.Install.{
  Items, abs, nonnegative, Event, slept, shown, create_entry, read_lines, apply_task, process_entry,
  process_all,
}

offset-lt : (index : ℤ) → bad_index index ≡ false → offset index < max_num_points
offset-lt (pos n) good = ground arith
offset-lt (negsuc n) good = cc

module _ {F : Type 0} where
  -- Every task has an index from 0 to 19.
  abbrev pub InRange : List (PointTask F) → Type 0
  InRange [] = Unit
  InRange (t ∷ tasks) = (bad_index t.index ≡ false) × InRange tasks

  InRange-append : (xs ys : List (PointTask F)) → InRange xs → InRange ys → InRange (xs ++ ys)
  InRange-append [] ys p q = q
  InRange-append (t ∷ xs) ys p q = (p.0, InRange-append xs ys p.1 q)

  create_entry-InRange :
      (tasks : List (PointTask F)) (line : Option (Items F))
      → InRange tasks
      → InRange (create_entry tasks line)
  unfolding create_entry
  create_entry-InRange tasks none p = p
  create_entry-InRange tasks (some (index, x, y, delay)) p = elim (Bool-cases (bad_index index)) [
    | inl bad ↦ rw bad p
    | inr good ↦ rw good (InRange-append tasks _ p (good, tt))
  ]

  -- However the lines read, only tasks with an index from 0 to 19 are put on the list.
  pub read-InRange :
      (tasks : List (PointTask F)) (lines : List (Option (Items F)))
      → InRange tasks
      → InRange (read_lines tasks lines)
  unfolding read_lines
  read-InRange tasks [] p = p
  read-InRange tasks (line ∷ lines) p =
      read-InRange (create_entry tasks line) lines (create_entry-InRange tasks line p)

  -- What a task leaves of the point at its index.
  abbrev pub written : PointTask F → Point F → Point F
  written t p = if nonnegative t.delay then t.point else record p { is_valid = pos 0 }

  -- What the tasks leave of the point at the index `i`, none of the others looked at.
  abbrev pub left_by : List (PointTask F) → ℕ → Point F → Point F
  left_by [] i p = p
  left_by (t ∷ tasks) i p = left_by tasks i (if offset t.index == i then written t p else p)

  get_or-clear_valid_self :
      (points : List (Point F)) (i : ℕ) (d : Point F)
      → i < length points
      → get_or (clear_valid points i) i d ≡ record (get_or points i d) { is_valid = pos 0 }
  unfolding clear_valid
  get_or-clear_valid_self [] i d lt = elim lt [ ]
  get_or-clear_valid_self (p ∷ points) zero d lt = refl
  get_or-clear_valid_self (p ∷ points) (suc i) d lt =
      get_or-clear_valid_self points i d (omega arith)

  get_or-clear_valid_ne :
      (points : List (Point F)) (i j : ℕ) (d : Point F)
      → i ≢ j
      → get_or (clear_valid points i) j d ≡ get_or points j d
  unfolding clear_valid
  get_or-clear_valid_ne [] i j d ne = refl
  get_or-clear_valid_ne (p ∷ points) zero zero d ne = absurd (ne refl)
  get_or-clear_valid_ne (p ∷ points) zero (suc j) d ne = refl
  get_or-clear_valid_ne (p ∷ points) (suc i) zero d ne = refl
  get_or-clear_valid_ne (p ∷ points) (suc i) (suc j) d ne =
      get_or-clear_valid_ne points i j d (λ e. ne (ap suc e))

  length-clear_valid :
      (points : List (Point F)) (i : ℕ) → length (clear_valid points i) ≡ length points
  unfolding clear_valid
  length-clear_valid [] i = refl
  length-clear_valid (p ∷ points) zero = refl
  length-clear_valid (p ∷ points) (suc i) = ap suc (length-clear_valid points i)

  -- One task on an array of 20 points changes the point at its index, and no other.
  apply-left :
      (t : PointTask F) (points : List (Point F)) (i : ℕ) (d : Point F)
      → bad_index t.index ≡ false
      → length points ≡ max_num_points
      → get_or (apply_task t points) i d
        ≡ (if offset t.index == i then written t (get_or points i d) else get_or points i d)
  unfolding apply_task install_point invalidate_point
  apply-left t points i d good size =
      let inside = offset-lt t.index good in
      elim (ℕ-cases (offset t.index) i) [
        | inl same ↦
            let hit : (offset t.index == i) ≡ true = ground arith in
            elim (Bool-cases (nonnegative t.delay)) [
              | inl add ↦
                  rw (add, good, hit)
                    (ap (λ k. get_or (set points (offset t.index) t.point) k d) (sym same)
                      ∙ get_or-set_self points (offset t.index) t.point d (omega arith))
              | inr drop ↦
                  rw (drop, good, hit)
                    (ap (λ k. get_or (clear_valid points (offset t.index)) k d) (sym same)
                      ∙ get_or-clear_valid_self points (offset t.index) d (omega arith)
                      ∙ ap (λ k. record (get_or points k d) { is_valid = pos 0 }) same)
            ]
        | inr ne ↦
            let miss : (offset t.index == i) ≡ false = ground arith in
            elim (Bool-cases (nonnegative t.delay)) [
              | inl add ↦
                  rw (add, good, miss) (get_or-set_ne points (offset t.index) i t.point d ne)
              | inr drop ↦
                  rw (drop, good, miss) (get_or-clear_valid_ne points (offset t.index) i d ne)
            ]
      ]

  length-apply :
      (t : PointTask F) (points : List (Point F)) → length (apply_task t points) ≡ length points
  unfolding apply_task install_point invalidate_point
  length-apply t points = elim (Bool-cases (bad_index t.index)) [
    | inl bad ↦ ground arith
    | inr good ↦ elim (Bool-cases (nonnegative t.delay)) [
      | inl add ↦ rw (add, good) (length-set points (offset t.index) t.point)
      | inr drop ↦ rw (drop, good) (length-clear_valid points (offset t.index))
    ]
  ]

  -- The tasks for which the segment was locked.
  abbrev pub granted : (ℕ → Bool) → ℕ → List (PointTask F) → List (PointTask F)
  granted locks idx [] = []
  granted locks idx (t ∷ tasks) =
      let rest = granted locks (idx + 1) tasks in if locks idx then t ∷ rest else rest

  -- Carrying out tasks with indices from 0 to 19 on an array of 20 points leaves, at each index,
  -- what the tasks for that index for which the segment was locked leave, in their order.
  pub process-left :
      (f : Float F) (locks : ℕ → Bool) (idx : ℕ) (tasks : List (PointTask F))
      (points : List (Point F)) (i : ℕ) (d : Point F)
      → InRange tasks
      → length points ≡ max_num_points
      → get_or (process_all f locks idx tasks points).0 i d
        ≡ left_by (granted locks idx tasks) i (get_or points i d)
  unfolding process_all process_entry
  process-left f locks idx [] points i d p size = refl
  process-left f locks idx (t ∷ tasks) points i d p size = elim (Bool-cases (locks idx)) [
    | inl got ↦
        rw (p.0, got)
          (process-left f locks (idx + 1) tasks (apply_task t points) i d p.1
              (length-apply t points ∙ size)
            ∙ ap (left_by (granted locks (idx + 1) tasks) i) (apply-left t points i d p.0 size))
    | inr refused ↦ rw (p.0, refused) (process-left f locks (idx + 1) tasks points i d p.1 size)
  ]

  -- The seconds slept.
  abbrev pub sleeps : List (Event F) → ℕ
  sleeps [] = 0
  sleeps (slept n ∷ es) = n + sleeps es
  sleeps (shown ls ∷ es) = sleeps es

  abbrev pub delays : List (PointTask F) → ℕ
  delays [] = 0
  delays (t ∷ tasks) = abs t.delay + delays tasks

  sleeps-append : (es gs : List (Event F)) → sleeps (es ++ gs) ≡ sleeps es + sleeps gs
  sleeps-append [] gs = omega arith
  sleeps-append (slept n ∷ es) gs = omega (arith, sleeps-append es gs)
  sleeps-append (shown ls ∷ es) gs = sleeps-append es gs

  sleeps-entry :
      (f : Float F) (locked : Bool) (t : PointTask F) (points : List (Point F))
      → sleeps (process_entry f locked t points).1 ≡ abs t.delay
  unfolding process_entry
  sleeps-entry f locked t points = elim (Bool-cases (bad_index t.index)) [
    | inl bad ↦ rw bad (add-zero (abs t.delay))
    | inr good ↦ elim (Bool-cases locked) [
      | inl got ↦ rw (good, got) (add-zero (abs t.delay))
      | inr refused ↦ rw (good, refused) (add-zero (abs t.delay))
    ]
  ]

  -- The worker sleeps for the sum of the absolute delays, whether it gets the locks or not.
  pub process-sleeps :
      (f : Float F) (locks : ℕ → Bool) (idx : ℕ) (tasks : List (PointTask F))
      (points : List (Point F))
      → sleeps (process_all f locks idx tasks points).1 ≡ delays tasks
  unfolding process_all
  process-sleeps f locks idx [] points = refl
  process-sleeps f locks idx (t ∷ tasks) points =
      let (after, first) = process_entry f (locks idx) t points in
      let rest = process_all f locks (idx + 1) tasks after in
      omega (
        arith,
        sleeps-append first rest.1,
        sleeps-entry f (locks idx) t points,
        process-sleeps f locks (idx + 1) tasks after,
      )
