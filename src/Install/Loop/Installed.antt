-- ===== src/Install/Loop/Installed.antt =====
-- Without signals, and where pthread_cond_wait returns only when it is signalled, the loop does what it
-- is for.
use legacy_point_monitor.Common.{ℕ, ◌≡◌, refl, Bool, true, false, List, [], arith}
use legacy_point_monitor.Points.{Float, Point, PointTask}
use legacy_point_monitor.Install.{process_all}
use legacy_point_monitor.Install.Loop.{
  Main, Worker, Manager, State, start, Step, resets, executes, aborts, locks, waits, relocks,
  unlocks, kills, joins, repeats, leaves, destroys, worker_installs, worker_finishes, worker_locks,
  worker_signals, worker_unlocks, worker_dies, manager_takes, manager_kills, manager_flags,
  manager_clears, manager_locks, manager_signals, manager_unlocks,
}
use legacy_point_monitor.Install.Loop.Invariant.{has_worker, is_present}
use legacy_point_monitor.Install.Loop.Measure.{Run, done, more}
use legacy_point_monitor.Install.Loop.Lost.{install_all, install_all-nil, install_all-cons}

-- The worker has signalled main.
abbrev pub has_signalled : {F : Type 0} → Worker F → Bool
has_signalled Worker.unlocking = true
has_signalled Worker.exited = true
has_signalled _ = false

module _ {F : Type 0} (f : Float F) (tasks : List (PointTask F)) where
  -- What the worker's remaining tasks make of the array.
  abbrev pub outcome : Worker F → List (Point F) → List (Point F)
  outcome (Worker.working ts) points = install_all f tasks ts points
  outcome _ points = points

  -- How far main and the worker are.
  abbrev pub InStage : Main → Worker F → Bool → List (Point F) → List (Point F) → Type 0
  InStage Main.starting w c points from = ⊥
  InStage Main.executing w c points from = points ≡ from
  InStage Main.locking w c points from =
      (c ≡ false) × (outcome w points ≡ install_all f tasks tasks from)
  InStage Main.entering w c points from =
      (c ≡ false) × (outcome w points ≡ install_all f tasks tasks from)
  InStage Main.waiting w c points from =
      (c ≡ false) × (outcome w points ≡ install_all f tasks tasks from)
  InStage Main.aborted w c points from = Unit
  InStage Main.testing w c points from = points ≡ install_all f tasks tasks from
  InStage Main.ended w c points from = points ≡ install_all f tasks tasks from
  InStage Main.destroyed w c points from = points ≡ install_all f tasks tasks from
  InStage _ w c points from = (has_signalled w ≡ true) × (points ≡ install_all f tasks tasks from)

  pub record IsQuiet (from : List (Point F)) (s : State F) : Type 0 where
    pub no_signals : s.signals ≡ []
    pub no_handler : s.manager ≡ Manager.idle
    pub no_request : s.reinstall ≡ false
    pub present : is_present s.worker ≡ has_worker s.main
    pub stage : InStage s.main s.worker s.cancel s.points from

  pub Step-IsQuiet :
      {s t : State F} (from : List (Point F)) → Step f tasks s t → IsQuiet from s → IsQuiet from t
  Step-IsQuiet from (resets e) i = ground arith
  Step-IsQuiet from (executes a) i = ground arith
  Step-IsQuiet from (aborts a) i = ground arith
  Step-IsQuiet from (locks a b) i = ground arith
  Step-IsQuiet from (waits a) i = ground arith
  Step-IsQuiet from (relocks a b) i = ground arith
  Step-IsQuiet from (unlocks a) i = ground arith
  Step-IsQuiet from (kills a) i = ground arith
  Step-IsQuiet from (joins a b) i = ground arith
  Step-IsQuiet from (repeats a b) i = ground arith
  Step-IsQuiet from (leaves a b) i = ground arith
  Step-IsQuiet from (destroys a) i = ground arith
  Step-IsQuiet {s} from (worker_finishes a) i = ground (arith, install_all-nil f tasks s.points)
  Step-IsQuiet from (worker_locks a b) i = ground arith
  Step-IsQuiet from (worker_signals a) i = ground arith
  Step-IsQuiet from (worker_unlocks a) i = ground arith
  Step-IsQuiet from (manager_takes a b c d) i = ground arith
  Step-IsQuiet from (manager_kills a) i = ground arith
  Step-IsQuiet from (manager_flags a) i = ground arith
  Step-IsQuiet from (manager_clears a) i = ground arith
  Step-IsQuiet from (manager_locks a b) i = ground arith
  Step-IsQuiet from (manager_signals a) i = ground arith
  Step-IsQuiet from (manager_unlocks a) i = ground arith
  Step-IsQuiet {s} from (worker_dies ts e c) i = ground arith
  Step-IsQuiet {s} from (worker_installs t ts e) i =
      ground (arith, install_all-cons f tasks t ts s.points)

  pub Run-IsQuiet :
      {s t : State F} (from : List (Point F)) {n : ℕ}
      → Run f tasks s n t
      → IsQuiet from s
      → IsQuiet from t
  Run-IsQuiet from done i = i
  Run-IsQuiet from (more r st) i = Step-IsQuiet from st (Run-IsQuiet from r i)

  pub start-IsQuiet : (points : List (Point F)) → IsQuiet points (start f tasks [] points)
  start-IsQuiet points = record {
    no_signals = refl;
    no_handler = refl;
    no_request = refl;
    present = refl;
    stage = refl;
  }

  -- Without signals, and with no wake-up but by a signal of the condition, the segment is removed only
  -- after the array holds what all the tasks, each with the lock, leave in it.
  pub destroyed-installed :
      (points : List (Point F)) (n : ℕ) (s : State F)
      → Run f tasks (start f tasks [] points) n s
      → s.main ≡ Main.destroyed
      → s.points ≡ (process_all f (λ i. true) 0 tasks points).0
  destroyed-installed points n s r e =
      let q = Run-IsQuiet points r (start-IsQuiet points) in
      let stage : InStage Main.destroyed s.worker s.cancel s.points points = rw e at q.stage in
      stage
