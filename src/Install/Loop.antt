-- ===== src/Install/Loop.antt =====
-- src/bin/install_data/install_data.c: the loop of main with the worker thread and the thread that calls
-- the signal handlers, a shared access at a time. `signals` are the signals that will arrive; the
-- thread may take the next one at any time. The semaphores are off, so shm_lock returns true. A
-- task's write to the array and the memset count as one access each. What th_kill_all does to the
-- worker is `cancel`, and th_wait_all waits until it has exited.
pub mod Invariant
pub mod Measure
pub mod Progress
pub mod Lost
pub mod Forgotten
pub mod Installed
pub mod Awaited
pub mod Early
pub mod Completed
use legacy_point_monitor.Common.{
  ◌≡◌, Bool, true, false, Option, none, some, List, [], ◌∷◌, replicate,
}
use legacy_point_monitor.Common.Int.{pos}
use legacy_point_monitor.Points.{max_num_points, Float, Point, PointTask}
use legacy_point_monitor.Install.{process_entry}

-- Where main stands: before the statement, in pthread_cond_wait until it is signalled (`waiting`), and
-- there until it has the mutex again (`woken`).
pub data Main : Type 0 where
  starting executing locking entering waiting woken unlocking killing joining testing ended : Main
  destroyed aborted : Main

-- `absent`: no thread is managed. `working` holds the tasks that are left.
pub data Worker (F : Type 0) : Type 0 where
  absent locking signalling unlocking exited : Worker F
  working : List (PointTask F) → Worker F

-- Where the thread that calls graceful_exit and clear_and_restart stands.
pub data Manager : Type 0 where
  idle killing flagging clearing locking signalling unlocking : Manager

-- SIGINT or SIGQUIT, and SIGHUP.
pub data Request : Type 0 where
  quit hangup : Request

pub data Thread : Type 0 where
  main_thread worker_thread manager_thread : Thread

-- `owner` has SyncMutex, `reinstall` is ReinstallTasks.
pub record State (F : Type 0) : Type 0 where
  pub main : Main
  pub worker : Worker F
  pub manager : Manager
  pub owner : Option Thread
  pub reinstall : Bool
  pub cancel : Bool
  pub signals : List Request
  pub points : List (Point F)

-- pthread_cond_signal wakes main if it waits, and is lost otherwise.
abbrev pub notified : Main → Main
notified Main.waiting = Main.woken
notified m = m

-- The first statement of the handler.
abbrev pub handling : Request → Manager
handling quit = Manager.killing
handling hangup = Manager.flagging

-- The array after `memset(ShmAddr, 0, ...)`.
abbrev pub cleared : {F : Type 0} → Float F → List (Point F)
cleared f = replicate max_num_points (record { is_valid = pos 0; x = f.zero; y = f.zero })

module _ {F : Type 0} (f : Float F) (tasks : List (PointTask F)) where
  -- Main first enters the loop before the other threads exist.
  abbrev pub start : List Request → List (Point F) → State F
  start signals points = record {
    main = Main.executing;
    worker = Worker.absent;
    manager = Manager.idle;
    owner = none;
    reinstall = false;
    cancel = false;
    signals = signals;
    points = points;
  }

  pub data Step (s : State F) : State F → Type 0 where
    resets : s.main ≡ Main.starting → Step s (record s { main = Main.executing; reinstall = false })
    executes :
        s.main ≡ Main.executing
        → Step s (record s { main = Main.locking; worker = Worker.working tasks; cancel = false })
    aborts : s.main ≡ Main.executing → Step s (record s { main = Main.aborted })
    locks :
        s.main ≡ Main.locking
        → s.owner ≡ none
        → Step s (record s { main = Main.entering; owner = some main_thread })
    waits : s.main ≡ Main.entering → Step s (record s { main = Main.waiting; owner = none })
    relocks :
        s.main ≡ Main.woken
        → s.owner ≡ none
        → Step s (record s { main = Main.unlocking; owner = some main_thread })
    unlocks : s.main ≡ Main.unlocking → Step s (record s { main = Main.killing; owner = none })
    kills : s.main ≡ Main.killing → Step s (record s { main = Main.joining; cancel = true })
    joins :
        s.main ≡ Main.joining
        → s.worker ≡ Worker.exited
        → Step s (record s { main = Main.testing; worker = Worker.absent })
    repeats :
        s.main ≡ Main.testing → s.reinstall ≡ true → Step s (record s { main = Main.starting })
    leaves : s.main ≡ Main.testing → s.reinstall ≡ false → Step s (record s { main = Main.ended })
    destroys : s.main ≡ Main.ended → Step s (record s { main = Main.destroyed })
    worker_installs :
        (t : PointTask F) (ts : List (PointTask F))
        → s.worker ≡ Worker.working (t ∷ ts)
        → Step s
            (record s { worker = Worker.working ts; points = (process_entry f true t s.points).0 })
    worker_finishes : s.worker ≡ Worker.working [] → Step s (record s { worker = Worker.locking })
    worker_locks :
        s.worker ≡ Worker.locking
        → s.owner ≡ none
        → Step s (record s { worker = Worker.signalling; owner = some worker_thread })
    worker_signals :
        s.worker ≡ Worker.signalling
        → Step s (record s { worker = Worker.unlocking; main = notified s.main })
    worker_unlocks :
        s.worker ≡ Worker.unlocking → Step s (record s { worker = Worker.exited; owner = none })
    worker_dies :
        (ts : List (PointTask F))
        → s.worker ≡ Worker.working ts
        → s.cancel ≡ true
        → Step s (record s { worker = Worker.exited })
    manager_takes :
        (r : Request) (rs : List Request)
        → s.manager ≡ Manager.idle
        → s.signals ≡ r ∷ rs
        → Step s (record s { manager = handling r; signals = rs })
    manager_kills :
        s.manager ≡ Manager.killing → Step s (record s { manager = Manager.locking; cancel = true })
    manager_flags :
        s.manager ≡ Manager.flagging
        → Step s (record s { manager = Manager.clearing; reinstall = true })
    manager_clears :
        s.manager ≡ Manager.clearing
        → Step s (record s { manager = Manager.locking; points = cleared f })
    manager_locks :
        s.manager ≡ Manager.locking
        → s.owner ≡ none
        → Step s (record s { manager = Manager.signalling; owner = some manager_thread })
    manager_signals :
        s.manager ≡ Manager.signalling
        → Step s (record s { manager = Manager.unlocking; main = notified s.main })
    manager_unlocks :
        s.manager ≡ Manager.unlocking → Step s (record s { manager = Manager.idle; owner = none })

  -- pthread_cond_wait may also return without a signal.
  pub data Wakes (s : State F) : State F → Type 0 where
    wakes : s.main ≡ Main.waiting → Wakes s (record s { main = Main.woken })

  -- States that the program can get to.
  pub data Reach (s : State F) : State F → Type 0 where
    here : Reach s s
    next : {t u : State F} → Reach s t → Step t u → Reach s u
    woke : {t u : State F} → Reach s t → Wakes t u → Reach s u
