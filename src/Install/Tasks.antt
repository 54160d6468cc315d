-- ===== src/Install/Tasks.antt =====
-- The global list of tasks of src/bin/install_data/install_data.c, as main fills it and the worker walks
-- it: each task is a structure from malloc, and the list holds its address. The list is a parameter, with
-- the laws that main relies on.
pub mod Loading
pub mod Linked
use legacy_point_monitor.Common.{
  ◌≡◌, Option, none, some, List, [], ◌∷◌, ◌++◌, ◌==◌, if◌then◌else◌, map,
}
use legacy_point_monitor.Common.Int.{ℤ, pos}
use legacy_point_monitor.Common.Outcome.{Outcome, ok, fault, ◌>>=◌}
use legacy_point_monitor.Store.Memory.{Ptr, null, update}
use legacy_point_monitor.Points.{PointTask, bad_index, TaskLine, show_task}
use legacy_point_monitor.Install.{Items}

-- A list of pointers: the operations that main uses, and what they promise. `Room` says what malloc and
-- the memory must give for pushes to come, each with its own answer of malloc, and `Freed` that nothing
-- of the list is left.
pub record ItemList : Type 1 where
  pub State : Type 0
  pub Holds : State → List Ptr → Type 0
  pub Room : State → List (Ptr × Ptr) → Type 0
  pub Freed : State → Type 0
  pub new : State
  pub push : Ptr → Ptr → State → Outcome State
  pub items : State → Outcome (List Ptr)
  pub destroy : State → Outcome State
  pub new-Holds : Holds new []
  pub push-Holds :
      (s : State) (vs : List Ptr) (fresh value : Ptr) (more : List (Ptr × Ptr))
      → Holds s vs
      → Room s ((fresh, value) ∷ more)
      → (s' : State) × (push fresh value s ≡ ok s') × Holds s' (vs ++ value ∷ []) × Room s' more
  pub items-Holds : (s : State) (vs : List Ptr) → Holds s vs → items s ≡ ok vs
  pub destroy-Holds :
      (s : State) (vs : List Ptr) → Holds s vs → (s' : State) × (destroy s ≡ ok s') × Freed s'

-- A line, with the addresses that malloc returns for its task and for the list's node.
pub record FileLine (F : Type 0) : Type 0 where
  pub task_at : Ptr
  pub node_at : Ptr
  pub found : Option (Items F)

abbrev pub task_of : {F : Type 0} → ℤ → F → F → ℤ → PointTask F
task_of index x y delay = record {
  index = index;
  delay = delay;
  point = record { is_valid = pos 1; x = x; y = y };
}

abbrev pub or_fault : {A : Type 0} → Option A → Outcome A
or_fault none = fault
or_fault (some a) = ok a

-- The list, and the tasks by address.
pub record Loaded (list : ItemList) (F : Type 0) : Type 0 where
  pub state : list.State
  pub objects : Ptr → Option (PointTask F)

-- `*(PointTask *) node` for each value of the list.
unfoldable pub read_tasks :
    {F : Type 0} → (Ptr → Option (PointTask F)) → List Ptr → Outcome (List (PointTask F))
read_tasks objects [] = ok []
read_tasks objects (v ∷ vs) = do t ← or_fault (objects v); ts ← read_tasks objects vs; ok (t ∷ ts)

module _ (list : ItemList) {F : Type 0} where
  -- `Tasks = new_list();`
  abbrev pub no_tasks : Loaded list F
  no_tasks = record { state = list.new; objects = λ p. none }

  -- A line that has four items: the task is filled in, and put on the list if its index is in range.
  unfoldable pub enter_task :
      (task_at node_at : Ptr) → PointTask F → Loaded list F → Outcome (Loaded list F)
  enter_task task_at node_at t s = do
    let filled = record s { objects = update s.objects task_at (some t) }
    if bad_index t.index then ok filled else (do
      state ← list.push node_at task_at filled.state
      ok (record filled { state = state }))

  -- `create_entry(Tasks, line)`. A line that does not parse leaves its task unused.
  unfoldable pub create_entry_at : FileLine F → Loaded list F → Outcome (Loaded list F)
  unfolding enter_task
  create_entry_at line s = elim line.found [
    | none ↦ ok s
    | some (index, x, y, delay) ↦
        if line.task_at == null
        then fault
        else enter_task line.task_at line.node_at (task_of index x y delay) s
  ]

  -- The loop over the lines of the file.
  unfoldable pub read_lines_at : List (FileLine F) → Loaded list F → Outcome (Loaded list F)
  unfolding create_entry_at
  read_lines_at [] s = ok s
  read_lines_at (line ∷ lines) s = do s ← create_entry_at line s; read_lines_at lines s

  -- The tasks that `iterate_list(Tasks, process_entry)` comes to, in order.
  unfoldable pub tasks_walked : Loaded list F → Outcome (List (PointTask F))
  unfolding read_tasks
  tasks_walked s = do vs ← list.items s.state; read_tasks s.objects vs

  -- `iterate_list(Tasks, show_task)`
  unfoldable pub tasks_shown : Loaded list F → Outcome (List (TaskLine F))
  unfolding tasks_walked
  tasks_shown s = do tasks ← tasks_walked s; ok (map show_task tasks)
