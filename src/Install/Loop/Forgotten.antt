-- ===== src/Install/Loop/Forgotten.antt =====
-- Two races between the handlers and main: a request to exit that a SIGHUP swallows, and a memset of a
-- segment that is no longer attached.
use legacy_point_monitor.Common.{refl, true, List, [], ◌∷◌}
use legacy_point_monitor.Points.{Float, Point, PointTask}
use legacy_point_monitor.Install.Loop.{
  Main, Worker, Manager, quit, hangup, State, start, cleared, Reach, here, next, resets, executes,
  locks, waits, relocks, unlocks, kills, joins, repeats, leaves, destroys, worker_finishes,
  worker_locks, worker_signals, worker_unlocks, worker_dies, manager_takes, manager_kills,
  manager_flags, manager_clears, manager_locks, manager_signals, manager_unlocks,
}
use legacy_point_monitor.Install.Loop.Lost.{install_all, work_through}

module _ {F : Type 0} (f : Float F) (tasks : List (PointTask F)) where
  -- Main begins to install the tasks, as at the start, and no signals are left.
  abbrev pub forgotten : State F
  forgotten = record (start f tasks [] (cleared f)) { cancel = true }

  -- After a SIGHUP and then a SIGINT or SIGQUIT the program may come to install all tasks again,
  -- with no signal left: where both handlers have run before main has the mutex again, main sees
  -- only that it is to install.
  pub Reach-forgotten :
      (points : List (Point F))
      → Reach f tasks (start f tasks (hangup ∷ quit ∷ []) points) forgotten
  Reach-forgotten points =
      let from = start f tasks (hangup ∷ quit ∷ []) points in
      let began : Reach f tasks from from = here in
      let waiting = next (next (next began (executes refl)) (locks refl refl)) (waits refl) in
      let hung =
        next (next (next waiting (manager_takes hangup (quit ∷ []) refl refl)) (manager_flags refl))
          (manager_clears refl) in
      let told =
        next (next (next hung (manager_locks refl refl)) (manager_signals refl))
          (manager_unlocks refl) in
      let asked = next (next told (manager_takes quit [] refl refl)) (manager_kills refl) in
      let told_again =
        next (next (next asked (manager_locks refl refl)) (manager_signals refl))
          (manager_unlocks refl) in
      let awake = next (next (next told_again (relocks refl refl)) (unlocks refl)) (kills refl) in
      next
        (next (next (next awake (worker_dies tasks refl refl)) (joins refl refl))
          (repeats refl refl))
        (resets refl)

  -- Main has removed the segment, and clear_and_restart is before its memset.
  abbrev pub dangling : List (Point F) → State F
  dangling points = record (start f tasks [] (install_all f tasks tasks points)) {
    main = Main.destroyed;
    worker = Worker.absent;
    manager = Manager.clearing;
    reinstall = true;
    cancel = true;
  }

  -- After a SIGHUP the program may come to clear the segment when main has already detached it.
  pub Reach-dangling :
      (points : List (Point F))
      → Reach f tasks (start f tasks (hangup ∷ []) points) (dangling points)
  Reach-dangling points =
      let from = start f tasks (hangup ∷ []) points in
      let began : Reach f tasks from from = here in
      let waiting = next (next (next began (executes refl)) (locks refl refl)) (waits refl) in
      let worked =
        work_through f tasks from (record from { main = Main.waiting }) tasks points waiting in
      let exited =
        next
          (next (next (next worked (worker_finishes refl)) (worker_locks refl refl))
            (worker_signals refl))
          (worker_unlocks refl) in
      let tested =
        next (next (next (next exited (relocks refl refl)) (unlocks refl)) (kills refl))
          (joins refl refl) in
      let caught = next tested (manager_takes hangup [] refl refl) in
      next (next (next caught (leaves refl refl)) (destroys refl)) (manager_flags refl)
