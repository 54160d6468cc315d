-- ===== src/Tests/Program.antt =====
-- Whole runs of monitor_shm and install_data on a kernel that grants every call.
use legacy_point_monitor.Common.{eq_of_some, none}
use legacy_point_monitor.Threads.Api.{InitCalls}
use legacy_point_monitor.Common.{
  eq_of_some, ℕ, ◌≡◌, refl, true, false, none, some, List, [], ◌∷◌, arith, ltb, get_or,
}
use legacy_point_monitor.Common.Int.{pos, negsuc}
use legacy_point_monitor.Common.Outcome.{ok}
use legacy_point_monitor.Points.{PointTask}
use legacy_point_monitor.Store.Memory.{Memory}
use legacy_point_monitor.SharedMem.State.{Library}
use legacy_point_monitor.SharedMem.Attachments.{Grants}
use legacy_point_monitor.SharedMem.Removals.{has_removed}
use legacy_point_monitor.Threads.State as ThreadState
use legacy_point_monitor.Threads.State.{Function, initial}
use legacy_point_monitor.Threads.Signals.{th_install_signal_handler}
use legacy_point_monitor.Threads.Bindings.{Refines, rebound}
use legacy_point_monitor.Threads.Rebinding.{none-Refines, install-Refines}
use legacy_point_monitor.Install.{read_lines, process_all}
use legacy_point_monitor.Install.Effect.{InRange, granted, left_by}
use legacy_point_monitor.Install.Tasks.{FileLine, Loaded, no_tasks, read_lines_at, tasks_walked}
use legacy_point_monitor.Install.Tasks.Loading.{found_lines, pushes, HasPlaces}
use legacy_point_monitor.Install.Tasks.Linked.{linked, Linked, task_bytes, read-installs}
use legacy_point_monitor.Store.List.Life.{AreFresh}
use legacy_point_monitor.Install.Startup.{
  StartCalls, Started, clear_and_restart, sighup, start_up, finish,
}
use legacy_point_monitor.Install.Startup.Handlers.{Begins}
use legacy_point_monitor.Install.Startup.Destroyed.{Starts, Finishes, main-Destroys}
use legacy_point_monitor.Monitor.Program.{MonitorCalls, Monitored, main}
use legacy_point_monitor.Monitor.Returned.{Lends, main-returns}
use legacy_point_monitor.Monitor.Completed.{Completes, main-Completes}
use legacy_point_monitor.Tests.SharedMem.{granting, detaching, destroying}
use legacy_point_monitor.Tests.Points.{floats, interrupted, interrupted-StopsAt, no_point, blank}
use legacy_point_monitor.Tests.Signals.{os}

abbrev calls : MonitorCalls ℕ
calls = record {
  rounds = interrupted;
  unlock = λ i. true;
  connect = granting 100 50 1;
  first_lock = true;
  first_unlock = true;
  detach = detaching;
}

-- A process that has connected to nothing.
abbrev fresh : Library
fresh = record {
  segment_nodes = none;
  use_semaphores = true;
  segments = λ p. none;
  memory = record { nodes = λ p. none; bytes = λ p. none };
  calls = [];
}

fresh-Grants : Grants (granting 100 50 1) fresh (pos 7) 100
fresh-Grants = record {
  got = refl;
  attached = refl;
  readable = λ i lt. (0, refl);
  item = omega arith;
  unused = refl;
}

main-Completes_example :
    (run : Monitored ℕ) × (main floats calls (some (pos 5)) fresh ≡ ok run)
    × Completes floats calls (some (pos 5)) (pos 7) 100 2 fresh run
main-Completes_example =
    main-Completes floats calls 4 2 (pos 7) 100 (some (pos 5)) fresh refl interrupted-StopsAt refl
      (omega arith) (omega arith) fresh-Grants refl

-- The lines of the file, each with the addresses of its task and node.
abbrev lines : List (FileLine ℕ)
lines =
    record { task_at = 200; node_at = 10; found = some (pos 3, 10, 20, pos 1) }
    ∷ record { task_at = 220; node_at = 11; found = none }
    ∷ record { task_at = 240; node_at = 12; found = some (pos 20, 1, 1, pos 0) }
    ∷ record { task_at = 260; node_at = 13; found = some (pos 3, 0, 0, negsuc 1) }
    ∷ []

abbrev heap : Memory
heap = record { nodes = λ p. none; bytes = λ p. some 0 }

lines-HasPlaces : HasPlaces {F = ℕ} (λ p. none) lines
lines-HasPlaces = (
  omega arith,
  refl,
  (refl, (refl, (refl, tt))),
  (
    omega arith,
    refl,
    (refl, (refl, tt)),
    (omega arith, refl, (refl, tt), (omega arith, refl, tt, tt)),
  ),
)

lines-AreFresh : AreFresh heap task_bytes (pushes lines)
lines-AreFresh = (
  omega arith,
  refl,
  (λ i lt. (0, refl)),
  refl,
  (omega arith, refl, (λ i lt. (0, refl)), refl, tt),
)

abbrev starting : StartCalls ℕ
starting = record {
  signals = os;
  file = some lines;
  connect = granting 100 50 1;
  sem_wait = true;
  sem_post = true;
}

-- The table of callbacks with clear_and_restart for SIGHUP.
abbrev bound :
    (lib' : ThreadState.Library) × (th_install_signal_handler os sighup clear_and_restart initial
      ≡ ok (true, lib'))
    × Refines lib' (some (rebound none sighup (some clear_and_restart)))
bound =
    install-Refines os sighup clear_and_restart initial none (none-Refines initial refl)
      (omega arith, omega arith) (refl, refl, refl, refl)

abbrev working : InitCalls
working = record {
  pipe_fails = false;
  get_flags_fails = false;
  set_flags_fails = false;
  create_fails = false;
  signals = os;
}

main-Destroys_example :
    (s : Started (linked heap) ℕ) × (start_up (linked heap) starting 2 false initial fresh ≡ ok s)
    × Begins working s.threads
    × (start : Starts
        (linked heap)
        starting
        (pos 7)
        100
        (read_lines [] (found_lines lines))
        (record fresh { use_semaphores = false })
        s)
    × (last : ThreadState.Library × Library × Linked) × (finish
          (linked heap)
          os
          destroying
          s.tasks
          bound.0
          s.segments
        ≡ ok last)
    × Finishes
        (linked heap)
        starting
        (pos 7)
        100
        (rebound none sighup (some clear_and_restart))
        s
        start.alone.enters.node
        last
main-Destroys_example =
    main-Destroys (linked heap) starting (pos 7) 100 working destroying 2 false lines initial
      bound.0 fresh (rebound none sighup (some clear_and_restart)) refl refl lines-AreFresh
      lines-HasPlaces refl refl refl
      (record { pipe = refl; get_flags = refl; set_flags = refl; create = refl })
      (refl, refl, refl, refl) (refl, refl, refl, refl) (refl, refl, refl, refl) refl (omega arith)
      (omega arith) fresh-Grants bound.2 (λ i. refl) refl

read-installs_example :
    (s : Loaded (linked heap) ℕ) × (read_lines_at (linked heap) lines (no_tasks (linked heap))
      ≡ ok s)
    × (tasks : List (PointTask ℕ)) × (tasks_walked (linked heap) s ≡ ok tasks)
    × (tasks ≡ read_lines [] (found_lines lines))
    × InRange tasks
    × (get_or (process_all floats (λ i. ltb i 1) 0 tasks blank).0 3 no_point
        ≡ left_by (granted (λ i. ltb i 1) 0 tasks) 3 (get_or blank 3 no_point))
read-installs_example =
    read-installs floats (λ i. ltb i 1) lines heap blank 3 no_point lines-AreFresh lines-HasPlaces
      refl

-- shmat fails in a process that has no table yet.
abbrev refusing : MonitorCalls ℕ
refusing = record calls { connect = record calls.connect { shmat = none } }

-- shmdt fails: main returns all the same.
abbrev keeping : MonitorCalls ℕ
keeping = record calls { detach = record calls.detach { shmdt_fails = true } }

main-returns_example :
    (run : Monitored ℕ) × (main floats keeping (some (pos 5)) fresh ≡ ok run)
    × (has_removed run.library.calls ≡ has_removed fresh.calls)
main-returns_example = main-returns floats keeping (some (pos 5)) fresh refl (omega arith) lent
  where
    lent : Lends keeping.connect fresh
    lent shm_id addr got at =
        rw (← eq_of_some 100 addr at, ← eq_of_some (pos 7) shm_id got) (omega arith, fresh-Grants)
