-- ===== src/Points/Report.antt =====
-- show_points reports the valid points: how many there are, their averages, and each of them in
-- order, the last one marked.
use legacy_point_monitor.Common.{
  ℕ, suc, ◌+◌, ◌-◌, ◌≡◌, refl, true, List, [], ◌∷◌, length, ltb, ◌==◌, if◌then◌else◌, arith,
  Bool-cases, inl, inr,
}
use legacy_point_monitor.Points.{
  Float, Point, Line, stats, entry, last_entry, no_stats, valid, Sums, collect, print_points,
  show_points,
}

module _ {F : Type 0} where
  -- The valid points with their indices.
  pub valid_entries : ℕ → List (Point F) → List (ℕ × Point F)
  valid_entries idx [] = []
  valid_entries idx (p ∷ points) =
      let rest = valid_entries (idx + 1) points in if valid p then (idx, p) ∷ rest else rest

  -- A line for each, the last one marked.
  pub marked : List (ℕ × Point F) → List (Line F)
  marked [] = []
  marked ((i, p) ∷ []) = last_entry i p ∷ []
  marked ((i, p) ∷ e ∷ es) = entry i p ∷ marked (e ∷ es)

  -- The sum of a coordinate, from left to right.
  abbrev pub total : Float F → (Point F → F) → List (ℕ × Point F) → F → F
  total f coord [] acc = acc
  total f coord ((i, p) ∷ es) acc = total f coord es (f.plus acc (coord p))

  collect-total :
      (f : Float F) (points : List (Point F)) (idx : ℕ) (s : Sums F)
      → collect f points s ≡ record {
        valid_points = s.valid_points + length (valid_entries idx points);
        sum_x = total f (λ p. p.x) (valid_entries idx points) s.sum_x;
        sum_y = total f (λ p. p.y) (valid_entries idx points) s.sum_y;
      }
  unfolding collect valid_entries
  collect-total f [] idx s = ground arith
  collect-total f (p ∷ points) idx s = elim (Bool-cases (valid p)) [
    | inl v ↦
        let ih = collect-total f points (idx + 1) (record {
          valid_points = s.valid_points + 1;
          sum_x = f.plus s.sum_x p.x;
          sum_y = f.plus s.sum_y p.y;
        }) in
        let count : s.valid_points + 1 + length (valid_entries (idx + 1) points)
            ≡ s.valid_points + suc (length (valid_entries (idx + 1) points)) =
          omega arith in
        rw (v, ← count) ih
    | inr v ↦ rw v (collect-total f points (idx + 1) s)
  ]

  mark-first :
      (i : ℕ) (p : Point F) (es : List (ℕ × Point F))
      → (if length es == 0 then last_entry i p else entry i p) ∷ marked es ≡ marked ((i, p) ∷ es)
  unfolding marked
  mark-first i p [] = refl
  mark-first i p (e ∷ es) = ground arith

  print-marked :
      (points : List (Point F)) (idx : ℕ)
      → print_points idx (length (valid_entries idx points)) points
        ≡ marked (valid_entries idx points)
  unfolding print_points valid_entries marked
  print-marked [] idx = refl
  print-marked (p ∷ points) idx = elim (Bool-cases (valid p)) [
    | inl v ↦
        let n = length (valid_entries (idx + 1) points) in
        let less : suc n - 1 ≡ n = omega arith in
        rw (v, less, print-marked points (idx + 1))
          (mark-first idx p (valid_entries (idx + 1) points))
    | inr v ↦ rw v (print-marked points (idx + 1))
  ]

  -- What show_points logs, from the valid points alone.
  pub report : Float F → List (ℕ × Point F) → List (Line F)
  report f [] = no_stats ∷ []
  report f (e ∷ es) =
      let n = length (e ∷ es) in
      stats n (f.over (total f (λ p. p.x) (e ∷ es) f.zero) n)
        (f.over (total f (λ p. p.y) (e ∷ es) f.zero) n)
      ∷ marked (e ∷ es)

  -- show_points logs the number of valid points and the averages of their coordinates, and then a
  -- line for each valid point with its index, in order and with the last one marked; or one line,
  -- if there is no valid point.
  pub show-report :
      (f : Float F) (points : List (Point F))
      → show_points f points ≡ report f (valid_entries 0 points)
  unfolding show_points report
  show-report f points =
      rw (collect-total f points 0 (record { valid_points = 0; sum_x = f.zero; sum_y = f.zero }))
        (by_entries (valid_entries 0 points) (print-marked points 0))
    where
      by_entries :
          (es : List (ℕ × Point F))
          → print_points 0 (length es) points ≡ marked es
          → (if ltb 0 (0 + length es)
              then stats
                  (0 + length es)
                  (f.over (total f (λ p. p.x) es f.zero) (0 + length es))
                  (f.over (total f (λ p. p.y) es f.zero) (0 + length es))
                ∷ print_points 0 (0 + length es) points
              else no_stats ∷ [])
            ≡ report f es
      by_entries [] e = refl
      by_entries (x ∷ es) e =
          let z : 0 + suc (length es) ≡ suc (length es) = omega arith in
          let more : ltb 0 (suc (length es)) ≡ true = ground arith in rw (z, e, more) refl
