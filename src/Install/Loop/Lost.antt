-- ===== src/Install/Loop/Lost.antt =====
-- A worker that finishes before main waits: its signal is lost, and main waits for ever.
use legacy_point_monitor.Common.{ℕ, ◌+◌, ◌≡◌, refl, true, List, [], ◌∷◌}
use legacy_point_monitor.Points.{Float, Point, PointTask}
use legacy_point_monitor.Install.{process_entry, process_all}
use legacy_point_monitor.Install.Loop.{
  Main, Worker, State, start, Step, Reach, here, next, resets, executes, aborts, locks, waits,
  relocks, unlocks, kills, joins, repeats, leaves, destroys, worker_installs, worker_finishes,
  worker_locks, worker_signals, worker_unlocks, worker_dies, manager_takes, manager_kills,
  manager_flags, manager_clears, manager_locks, manager_signals, manager_unlocks,
}
use legacy_point_monitor.Install.Loop.Progress.{Moves, IsLost}

module _ {F : Type 0} (f : Float F) (tasks : List (PointTask F)) where
  -- The array after the tasks, each of which gets the lock.
  abbrev pub install_all : List (PointTask F) → List (Point F) → List (Point F)
  install_all ts points = (process_all f (λ i. true) 0 ts points).0

  pub process_all-index :
      (i j : ℕ) (ts : List (PointTask F)) (points : List (Point F))
      → (process_all f (λ k. true) i ts points).0 ≡ (process_all f (λ k. true) j ts points).0
  unfolding process_all
  process_all-index i j [] points = refl
  process_all-index i j (t ∷ ts) points = process_all-index (i + 1) (j + 1) ts _

  pub install_all-nil : (points : List (Point F)) → install_all [] points ≡ points
  unfolding process_all
  install_all-nil points = refl

  pub install_all-cons :
      (t : PointTask F) (ts : List (PointTask F)) (points : List (Point F))
      → install_all (t ∷ ts) points ≡ install_all ts (process_entry f true t points).0
  unfolding process_all
  install_all-cons t ts points = process_all-index 1 0 ts (process_entry f true t points).0

  abbrev pub running : State F → List (PointTask F) → List (Point F) → State F
  running s ts points = record s { worker = Worker.working ts; points = points }

  -- The worker works through its tasks, the other threads standing still.
  pub work_through :
      (from s : State F) (ts : List (PointTask F)) (points : List (Point F))
      → Reach f tasks from (running s ts points)
      → Reach f tasks from (running s [] (install_all ts points))
  unfolding process_all
  work_through from s [] points r = r
  work_through from s (t ∷ ts) points r =
      let step : Step f tasks (running s (t ∷ ts) points)
          (running s ts (process_entry f true t points).0) =
        worker_installs t ts refl in
      rw (process_all-index 1 0 ts (process_entry f true t points).0)
        (work_through from s ts (process_entry f true t points).0 (next r step))

  -- No step leads out of a state with main waiting for good.
  pub IsLost-stuck : {s t : State F} → IsLost s → Step f tasks s t → ⊥
  IsLost-stuck l (resets a) = cc
  IsLost-stuck l (executes a) = cc
  IsLost-stuck l (aborts a) = cc
  IsLost-stuck l (locks a b) = cc
  IsLost-stuck l (waits a) = cc
  IsLost-stuck l (relocks a b) = cc
  IsLost-stuck l (unlocks a) = cc
  IsLost-stuck l (kills a) = cc
  IsLost-stuck l (joins a b) = cc
  IsLost-stuck l (repeats a b) = cc
  IsLost-stuck l (leaves a b) = cc
  IsLost-stuck l (destroys a) = cc
  IsLost-stuck l (worker_installs a b c) = cc
  IsLost-stuck l (worker_finishes a) = cc
  IsLost-stuck l (worker_locks a b) = cc
  IsLost-stuck l (worker_signals a) = cc
  IsLost-stuck l (worker_unlocks a) = cc
  IsLost-stuck l (worker_dies a b c) = cc
  IsLost-stuck l (manager_takes a b c d) = cc
  IsLost-stuck l (manager_kills a) = cc
  IsLost-stuck l (manager_flags a) = cc
  IsLost-stuck l (manager_clears a) = cc
  IsLost-stuck l (manager_locks a b) = cc
  IsLost-stuck l (manager_signals a) = cc
  IsLost-stuck l (manager_unlocks a) = cc

  -- All tasks are done, and main waits.
  abbrev pub lost : List (Point F) → State F
  lost points = record (start f tasks [] (install_all tasks points)) {
    main = Main.waiting;
    worker = Worker.exited;
  }

  -- Without a signal from outside and whatever the tasks, the program can get to a state in which
  -- all tasks are done, main waits, and no step is left: the worker's signal came before main
  -- waited.
  pub Reach-lost :
      (points : List (Point F))
      → Reach f tasks (start f tasks [] points) (lost points) × (Moves f tasks (lost points) → ⊥)
  Reach-lost points =
      let from = start f tasks [] points in
      let began : Reach f tasks from (running (record from { main = Main.locking }) tasks points) =
        next here (executes refl) in
      let worked = work_through from (record from { main = Main.locking }) tasks points began in
      let exited =
        next
          (next (next (next worked (worker_finishes refl)) (worker_locks refl refl))
            (worker_signals refl))
          (worker_unlocks refl) in
      (
        next (next exited (locks refl refl)) (waits refl),
        λ m.
            IsLost-stuck
              (record {
                waits_still = refl;
                exited_before = refl;
                no_handler = refl;
                no_signals = refl;
              })
              m.1,
      )
