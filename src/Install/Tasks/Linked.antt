-- ===== src/Install/Tasks/Linked.antt =====
-- The tasks of install_data on the linked list of src/lib/store/list.c.
use legacy_point_monitor.Common.{
  ℕ, ◌≡◌, refl, sym, ap, ◌∙◌, Bool, true, none, Bool-cases, inl, inr, ◌==◌, eq_of_beq, List, [],
  ◌∷◌, ◌++◌, arith, get_or, length,
}
use legacy_point_monitor.Common.Outcome.{ok, ◌>>=◌}
use legacy_point_monitor.Store.Memory.{Ptr, Memory}
use legacy_point_monitor.Store.List.{
  ListHandle, new_list, push_list_item, iterate_list, destroy_list,
}
use legacy_point_monitor.Store.List.Chain.{
  Cells, has, SameOutside, IsList, has-append, not-has_of_none,
}
use legacy_point_monitor.Store.List.Push.{push-append}
use legacy_point_monitor.Store.List.Loops.{values, iterate-values, destroy-Without}
use legacy_point_monitor.Store.List.Life.{
  AreFresh, AreFresh-kept, AreFresh-unused, has-apart, new-IsList,
}
use legacy_point_monitor.Points.{max_num_points, Float, Point, PointTask}
use legacy_point_monitor.Install.{read_lines, process_all}
use legacy_point_monitor.Install.Effect.{InRange, read-InRange, granted, left_by, process-left}
use legacy_point_monitor.Install.Tasks.{
  ItemList, FileLine, Loaded, no_tasks, read_lines_at, tasks_walked,
}
use legacy_point_monitor.Install.Tasks.Loading.{
  pushes, found_lines, HasPlaces, lines-Keeps, Keeps-walked,
}

-- `sizeof(PointTask)`: three words and two floats.
abbrev pub task_bytes : ℕ
task_bytes = 20

-- The `List` structure and the memory that its nodes are in.
abbrev pub Linked : Type 0
Linked = ListHandle × Memory

-- The list is well formed, and what is in memory outside its nodes is what was there at first, when its
-- nodes were not in use.
pub record LinkedHolds (first : Memory) (s : Linked) (vs : List Ptr) : Type 0 where
  pub cells : Cells
  pub is : IsList s.1.nodes s.0 cells
  pub holds : values cells ≡ vs
  pub outside : SameOutside cells first.nodes s.1.nodes
  pub unused : (a : Ptr) → has a cells ≡ true → first.nodes a ≡ none

pub new-LinkedHolds : (m : Memory) → LinkedHolds m (new_list, m) []
new-LinkedHolds m = record {
  cells = [];
  is = new-IsList m.nodes;
  holds = refl;
  outside = λ b o. refl;
  unused = λ a h. cc;
}

abbrev pub LinkedRoom : Linked → Cells → Type 0
LinkedRoom (l, m) cells = AreFresh m task_bytes cells

values-append : (xs : Cells) (a v : Ptr) → values (xs ++ (a, v) ∷ []) ≡ values xs ++ v ∷ []
values-append [] a v = refl
values-append ((b, w) ∷ xs) a v = ap (λ vs. w ∷ vs) (values-append xs a v)

pub linked-push :
    (first : Memory) (s : Linked) (vs : List Ptr) (fresh value : Ptr) (more : Cells)
    → LinkedHolds first s vs
    → LinkedRoom s ((fresh, value) ∷ more)
    → (s' : Linked) × (push_list_item fresh s.0 value task_bytes s.1 ≡ ok s')
      × LinkedHolds first s' (vs ++ value ∷ [])
      × LinkedRoom s' more
linked-push first (l, m) vs fresh value more h (ne, unused, readable, apart, rest) =
    let xs = h.cells in
    let cell : Cells = (fresh, value) ∷ [] in
    let (m', l', run, (is', same, bytes)) =
      push-append m l xs fresh value task_bytes h.is ne unused readable in
    let untouched : (b : Ptr) → has b more ≡ true → m'.nodes b ≡ m.nodes b = λ b inside.
      let free =
        not-has_of_none m.nodes l.head xs b (AreFresh-unused m task_bytes more b rest inside)
          h.is.chain in
      same b (ground (arith, has-append b xs cell, has-apart fresh b more apart inside)) in
    let new : first.nodes fresh ≡ none =
      sym (h.outside fresh (not-has_of_none m.nodes l.head xs fresh unused h.is.chain)) ∙ unused in
    (
      (l', m'),
      run,
      record {
        cells = xs ++ cell;
        is = is';
        holds = values-append xs fresh value ∙ ap (λ ws. ws ++ value ∷ []) h.holds;
        outside = λ b o. same b o ∙ h.outside b (ground (arith, has-append b xs cell));
        unused = λ a inside. elim (Bool-cases (has a xs)) [
          | inl before ↦ h.unused a before
          | inr apart' ↦
              let here : (a == fresh) ≡ true = ground (arith, has-append a xs cell) in
              ap first.nodes (eq_of_beq a fresh here) ∙ new
        ];
      },
      AreFresh-kept m m' task_bytes more untouched bytes rest,
    )

-- destroy_list takes all nodes of the list out of memory, and no other.
pub linked-destroy :
    (first : Memory) (s : Linked) (vs : List Ptr)
    → LinkedHolds first s vs
    → (s' : Linked) × ((destroy_list s.0 s.1 >>= λ r. ok (s.0, r.1)) ≡ ok s')
      × ((a : Ptr) → s'.1.nodes a ≡ first.nodes a)
linked-destroy first s vs h =
    let (g, run, gone) = destroy-Without s.1 s.0 h.cells h.is in
    (
      (s.0, record s.1 { nodes = g }),
      rw run refl,
      λ a. gone a ∙ elim (Bool-cases (has a h.cells)) [
        | inl inside ↦ rw inside (sym (h.unused a inside))
        | inr out ↦ rw out (h.outside a out)
      ],
    )

-- The linked list keeps the laws, whatever else is in memory `m`; it is freed when the nodes in memory
-- are those of `m` again.
abbrev pub linked : Memory → ItemList
linked m = record {
  State = Linked;
  new = (new_list, m);
  Holds = LinkedHolds m;
  Room = LinkedRoom;
  Freed = λ s. (a : Ptr) → s.1.nodes a ≡ m.nodes a;
  push = λ fresh value s. push_list_item fresh s.0 value task_bytes s.1;
  items = λ s. iterate_list s.0 s.1 >>= λ r. ok r.0;
  destroy = λ s. destroy_list s.0 s.1 >>= λ r. ok (s.0, r.1);
  new-Holds = new-LinkedHolds m;
  push-Holds = linked-push m;
  items-Holds = λ s vs h. rw (iterate-values s.1 s.0 h.cells h.is) (ap ok h.holds);
  destroy-Holds = linked-destroy m;
}

module _ {F : Type 0} where
  -- Where malloc returns unused addresses, main reads the lines onto its linked list without a fault,
  -- and iterate_list comes to the tasks of the lines that have four items and an index in range, in
  -- their order, and to nothing else; on an array of 20 points the worker leaves at each index what
  -- those of these tasks leave there for which the segment was locked.
  pub read-installs :
      (f : Float F) (locks : ℕ → Bool) (lines : List (FileLine F)) (m : Memory)
      (points : List (Point F)) (i : ℕ) (d : Point F)
      → AreFresh m task_bytes (pushes lines)
      → HasPlaces {F = F} (λ p. none) lines
      → length points ≡ max_num_points
      → (s : Loaded (linked m) F) × (read_lines_at (linked m) lines (no_tasks (linked m)) ≡ ok s)
        × (tasks : List (PointTask F)) × (tasks_walked (linked m) s ≡ ok tasks)
        × (tasks ≡ read_lines [] (found_lines lines))
        × InRange tasks
        × (get_or (process_all f locks 0 tasks points).0 i d
            ≡ left_by (granted locks 0 tasks) i (get_or points i d))
  read-installs f locks lines m points i d fresh places size =
      let (s, run, k) =
        lines-Keeps (linked m) lines [] (no_tasks (linked m))
          (record { pointers = []; holds = new-LinkedHolds m; leads = tt; room = fresh }) places in
      let good = read-InRange [] (found_lines lines) tt in
      (
        s,
        run,
        read_lines [] (found_lines lines),
        Keeps-walked (linked m) s (read_lines [] (found_lines lines)) [] k,
        refl,
        good,
        process-left f locks 0 (read_lines [] (found_lines lines)) points i d good size,
      )
