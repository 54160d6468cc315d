-- ===== src/Install/Loop/Invariant.antt =====
-- What holds in every state that the program gets to: who has the mutex, and when there is a worker.
use legacy_point_monitor.Common.{◌≡◌, refl, Bool, true, false, Option, none, some, List, arith}
use legacy_point_monitor.Points.{Float, Point, PointTask}
use legacy_point_monitor.Install.Loop.{
  Main, Worker, Manager, Request, Thread, main_thread, worker_thread, manager_thread, State, start,
  Step, resets, executes, aborts, locks, waits, relocks, unlocks, kills, joins, repeats, leaves,
  destroys, worker_installs, worker_finishes, worker_locks, worker_signals, worker_unlocks,
  worker_dies, manager_takes, manager_kills, manager_flags, manager_clears, manager_locks,
  manager_signals, manager_unlocks, Wakes, wakes, Reach, here, next, woke,
}

-- Between a lock and the unlock, where pthread_cond_wait unlocks and locks again.
abbrev pub main_holds : Main → Bool
main_holds Main.entering = true
main_holds Main.unlocking = true
main_holds _ = false

abbrev pub worker_holds : {F : Type 0} → Worker F → Bool
worker_holds Worker.signalling = true
worker_holds Worker.unlocking = true
worker_holds _ = false

abbrev pub manager_holds : Manager → Bool
manager_holds Manager.signalling = true
manager_holds Manager.unlocking = true
manager_holds _ = false

-- The owner of the mutex is the only one that stands between a lock and the unlock.
abbrev pub OnlyOwner : Option Thread → Bool → Bool → Bool → Type 0
OnlyOwner none m w g = (m ≡ false) × (w ≡ false) × (g ≡ false)
OnlyOwner (some main_thread) m w g = (m ≡ true) × (w ≡ false) × (g ≡ false)
OnlyOwner (some worker_thread) m w g = (m ≡ false) × (w ≡ true) × (g ≡ false)
OnlyOwner (some manager_thread) m w g = (m ≡ false) × (w ≡ false) × (g ≡ true)

-- From th_execute to th_wait_all.
abbrev pub has_worker : Main → Bool
has_worker Main.locking = true
has_worker Main.entering = true
has_worker Main.waiting = true
has_worker Main.woken = true
has_worker Main.unlocking = true
has_worker Main.killing = true
has_worker Main.joining = true
has_worker _ = false

abbrev pub is_present : {F : Type 0} → Worker F → Bool
is_present Worker.absent = false
is_present _ = true

pub record Inv {F : Type 0} (s : State F) : Type 0 where
  pub exclusive :
      OnlyOwner s.owner (main_holds s.main) (worker_holds s.worker) (manager_holds s.manager)
  pub present : is_present s.worker ≡ has_worker s.main

module _ {F : Type 0} {f : Float F} {tasks : List (PointTask F)} where
  Step-Inv : {s t : State F} → Step f tasks s t → Inv s → Inv t
  Step-Inv (resets e) i = ground arith
  Step-Inv (executes e) i = ground arith
  Step-Inv (aborts e) i = ground arith
  Step-Inv (locks e o) i = ground arith
  Step-Inv (waits e) i = ground arith
  Step-Inv (relocks e o) i = ground arith
  Step-Inv (unlocks e) i = ground arith
  Step-Inv (kills e) i = ground arith
  Step-Inv (joins e x) i = ground arith
  Step-Inv (repeats e b) i = ground arith
  Step-Inv (leaves e b) i = ground arith
  Step-Inv (destroys e) i = ground arith
  Step-Inv (worker_installs t ts e) i = ground arith
  Step-Inv (worker_finishes e) i = ground arith
  Step-Inv (worker_locks e o) i = ground arith
  Step-Inv (worker_signals e) i = ground arith
  Step-Inv (worker_unlocks e) i = ground arith
  Step-Inv (worker_dies ts e c) i = ground arith
  Step-Inv (manager_takes r rs e q) i = ground arith
  Step-Inv (manager_kills e) i = ground arith
  Step-Inv (manager_flags e) i = ground arith
  Step-Inv (manager_clears e) i = ground arith
  Step-Inv (manager_locks e o) i = ground arith
  Step-Inv (manager_signals e) i = ground arith
  Step-Inv (manager_unlocks e) i = ground arith

  Wakes-Inv : {s t : State F} → Wakes f tasks s t → Inv s → Inv t
  Wakes-Inv (wakes e) i = ground arith

  pub Reach-Inv : {s t : State F} → Inv s → Reach f tasks s t → Inv t
  Reach-Inv i here = i
  Reach-Inv i (next r st) = Step-Inv st (Reach-Inv i r)
  Reach-Inv i (woke r w) = Wakes-Inv w (Reach-Inv i r)

-- In every state that the program gets to, the mutex is held by the one thread, if any, that stands
-- between locking and unlocking it, and there is a worker exactly from th_execute to th_wait_all.
pub start-Inv :
    {F : Type 0} (f : Float F) (tasks : List (PointTask F)) (signals : List Request)
    (points : List (Point F)) (s : State F)
    → Reach f tasks (start f tasks signals points) s
    → Inv s
start-Inv f tasks signals points s r =
    Reach-Inv (record { exclusive = (refl, refl, refl); present = refl }) r
