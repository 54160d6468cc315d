-- ===== src/Tests/Loop.antt =====
-- The loop of install_data with two tasks.
use legacy_point_monitor.Common.{
  ℕ, ◌+◌, ◌*◌, ◌≤◌, ◌≡◌, refl, true, false, ltb, List, [], ◌∷◌, replicate, Option, some, get_or,
}
use legacy_point_monitor.Common.Int.{pos, negsuc}
use legacy_point_monitor.Points.{Float, Point, PointTask}
use legacy_point_monitor.Install.{Items, read_lines, process_entry}
use legacy_point_monitor.Install.Loop.{
  Main, Worker, quit, hangup, State, start, executes, locks, waits, Reach, relocks, unlocks, kills,
  joins, leaves, destroys, worker_installs, worker_finishes, worker_locks, worker_signals,
  worker_unlocks,
}
use legacy_point_monitor.Install.Loop.Invariant.{Inv, start-Inv}
use legacy_point_monitor.Install.Loop.Measure.{Run, done, more, hangups, Run-bounded}
use legacy_point_monitor.Install.Loop.Progress.{Moves}
use legacy_point_monitor.Install.Loop.Lost.{lost, Reach-lost}
use legacy_point_monitor.Install.Loop.Forgotten.{forgotten, Reach-forgotten}
use legacy_point_monitor.Install.Loop.Early.{early, Reach-early}
use legacy_point_monitor.Install.Loop.Completed.{file-installed}
use legacy_point_monitor.Install.Effect.{left_by}
use legacy_point_monitor.Install.Tasks.{task_of}
use legacy_point_monitor.Threads.Signals.{SignalCalls}

abbrev floats : Float ℕ
floats = record { zero = 0; plus = λ x y. x + y; over = λ x n. x }

abbrev no_point : Point ℕ
no_point = record { is_valid = pos 0; x = 0; y = 0 }

abbrev blank : List (Point ℕ)
blank = replicate 20 no_point

abbrev tasks : List (PointTask ℕ)
tasks =
    record { index = pos 3; delay = pos 1; point = record { is_valid = pos 1; x = 10; y = 20 } }
    ∷ record { index = pos 4; delay = pos 2; point = record { is_valid = pos 1; x = 1; y = 2 } }
    ∷ []

start-Inv_example : Inv (lost floats tasks blank)
start-Inv_example =
    start-Inv floats tasks [] blank (lost floats tasks blank) (Reach-lost floats tasks blank).0

abbrev from : State ℕ
from = start floats tasks [] blank

abbrev waiting : State ℕ
waiting = record from { main = Main.waiting; worker = Worker.working tasks }

to_wait : Run floats tasks from 3 waiting
to_wait =
    let first : Run floats tasks from 0 from = done in
    more (more (more first (executes refl)) (locks refl refl)) (waits refl)

Run-bounded_example : 3 ≤ (hangups [] + 1) * (2 + 15) + 5 * 0
Run-bounded_example = Run-bounded floats tasks [] blank waiting 3 to_wait

Reach-lost_example :
    Reach floats tasks (start floats tasks [] blank) (lost floats tasks blank)
    × (Moves floats tasks (lost floats tasks blank) → ⊥)
Reach-lost_example = Reach-lost floats tasks blank

Reach-forgotten_example :
    Reach floats tasks (start floats tasks (hangup ∷ quit ∷ []) blank) (forgotten floats tasks)
Reach-forgotten_example = Reach-forgotten floats tasks blank

-- sigaddset as documented, and all else succeeds.
abbrev os : SignalCalls
os = record {
  sigemptyset_fails = false;
  sigaddset_fails = elim [ pos n ↦ ltb n 1 | negsuc n ↦ true ];
  sigprocmask_fails = λ s. false;
  sigaction_fails = λ s. false;
}

Reach-early_example : Reach floats tasks from (early floats tasks blank)
Reach-early_example = Reach-early floats tasks blank

-- A file of one line, and a run to the end.
abbrev lines : List (Option (Items ℕ))
lines = some (pos 3, 10, 20, pos 1) ∷ []

abbrev installed : List (Point ℕ)
installed = (process_entry floats true (task_of (pos 3) 10 20 (pos 1)) blank).0

abbrev removed : State ℕ
removed = record (start floats (read_lines [] lines) [] blank) {
  main = Main.destroyed;
  worker = Worker.absent;
  cancel = true;
  points = installed;
}

to_end : Run floats (read_lines [] lines) (start floats (read_lines [] lines) [] blank) 14 removed
unfolding read_lines
to_end =
    let first : Run floats (read_lines [] lines) (start floats (read_lines [] lines) [] blank) 0
        (start floats (read_lines [] lines) [] blank) =
      done in
    let waits_now = more (more (more first (executes refl)) (locks refl refl)) (waits refl) in
    let worked =
      more (more waits_now (worker_installs (task_of (pos 3) 10 20 (pos 1)) [] refl))
        (worker_finishes refl) in
    let signalled =
      more (more (more worked (worker_locks refl refl)) (worker_signals refl))
        (worker_unlocks refl) in
    let woken = more (more (more signalled (relocks refl refl)) (unlocks refl)) (kills refl) in
    more (more (more woken (joins refl refl)) (leaves refl refl)) (destroys refl)

file-installed_example :
    get_or removed.points 3 no_point ≡ left_by (read_lines [] lines) 3 (get_or blank 3 no_point)
file-installed_example = file-installed floats lines blank 14 removed 3 no_point refl to_end refl
