-- ===== src/Install/Loop/Measure.antt =====
-- The loop of main takes finitely many steps: each SIGHUP that arrives accounts for one more round.
use native.Mathlib.Nat.{suc-mul}
use legacy_point_monitor.Common.{
  ℕ, zero, suc, ◌+◌, ◌*◌, ◌≤◌, ◌<◌, ◌≡◌, Bool, true, false, List, [], ◌∷◌, arith, length,
}
use legacy_point_monitor.Points.{Float, Point, PointTask}
use legacy_point_monitor.Install.Loop.{
  Main, Worker, Manager, Request, quit, hangup, State, start, Step, resets, executes, aborts, locks,
  waits, relocks, unlocks, kills, joins, repeats, leaves, destroys, worker_installs,
  worker_finishes, worker_locks, worker_signals, worker_unlocks, worker_dies, manager_takes,
  manager_kills, manager_flags, manager_clears, manager_locks, manager_signals, manager_unlocks,
}

-- More than a round of main and its worker, with a list of `n` tasks, takes.
abbrev pub round_cost : ℕ → ℕ
round_cost n = n + 14

abbrev pub main_rank : ℕ → Main → Bool → ℕ
main_rank n Main.starting true = 1
main_rank n Main.starting false = n + 15
main_rank n Main.executing b = n + 14
main_rank n Main.locking b = 9
main_rank n Main.entering b = 8
main_rank n Main.waiting b = 7
main_rank n Main.woken b = 6
main_rank n Main.unlocking b = 5
main_rank n Main.killing b = 4
main_rank n Main.joining b = 3
main_rank n Main.testing b = 2
main_rank n Main.ended b = 1
main_rank n Main.destroyed b = 0
main_rank n Main.aborted b = 0

abbrev pub worker_rank : {F : Type 0} → Worker F → ℕ
worker_rank Worker.absent = 0
worker_rank Worker.exited = 0
worker_rank Worker.unlocking = 1
worker_rank Worker.signalling = 2
worker_rank Worker.locking = 3
worker_rank (Worker.working ts) = length ts + 4

-- A SIGHUP that is not yet flagged pays for a round.
abbrev pub manager_rank : ℕ → Manager → ℕ
manager_rank n Manager.idle = 0
manager_rank n Manager.unlocking = 1
manager_rank n Manager.signalling = 2
manager_rank n Manager.locking = 3
manager_rank n Manager.clearing = 4
manager_rank n Manager.killing = 4
manager_rank n Manager.flagging = round_cost n + 5

abbrev pub flag_rank : ℕ → Bool → ℕ
flag_rank n true = round_cost n
flag_rank n false = 0

abbrev pub signals_rank : ℕ → List Request → ℕ
signals_rank n [] = 0
signals_rank n (quit ∷ rs) = signals_rank n rs + 5
signals_rank n (hangup ∷ rs) = signals_rank n rs + round_cost n + 6

abbrev pub rank : {F : Type 0} → ℕ → State F → ℕ
rank n s =
    main_rank n s.main s.reinstall
    + worker_rank s.worker
    + manager_rank n s.manager
    + flag_rank n s.reinstall
    + signals_rank n s.signals

module _ {F : Type 0} {f : Float F} {tasks : List (PointTask F)} where
  Step-rank : {s t : State F} → Step f tasks s t → rank (length tasks) t < rank (length tasks) s
  Step-rank {s} (resets e) = ground arith
  Step-rank {s} (executes e) = ground arith
  Step-rank {s} (aborts e) = ground arith
  Step-rank {s} (locks e o) = ground arith
  Step-rank {s} (waits e) = ground arith
  Step-rank {s} (relocks e o) = ground arith
  Step-rank {s} (unlocks e) = ground arith
  Step-rank {s} (kills e) = ground arith
  Step-rank {s} (joins e x) = ground arith
  Step-rank {s} (repeats e b) = ground arith
  Step-rank {s} (leaves e b) = ground arith
  Step-rank {s} (destroys e) = ground arith
  Step-rank {s} (worker_installs t ts e) = ground arith
  Step-rank {s} (worker_finishes e) = ground arith
  Step-rank {s} (worker_locks e o) = ground arith
  Step-rank {s} (worker_signals e) = ground arith
  Step-rank {s} (worker_unlocks e) = ground arith
  Step-rank {s} (worker_dies ts e c) = ground arith
  Step-rank {s} (manager_takes r rs e q) = ground arith
  Step-rank {s} (manager_kills e) = ground arith
  Step-rank {s} (manager_flags e) = ground arith
  Step-rank {s} (manager_clears e) = ground arith
  Step-rank {s} (manager_locks e o) = ground arith
  Step-rank {s} (manager_signals e) = ground arith
  Step-rank {s} (manager_unlocks e) = ground arith

-- A run of `n` steps.
pub data Run {F : Type 0} (f : Float F) (tasks : List (PointTask F)) (s : State F)
    : ℕ → State F → Type 0 where
  done : Run f tasks s zero s
  more : {n : ℕ} {t u : State F} → Run f tasks s n t → Step f tasks t u → Run f tasks s (suc n) u

Run-rank :
    {F : Type 0} (f : Float F) (tasks : List (PointTask F)) (s t : State F) (n : ℕ)
    → Run f tasks s n t
    → n + rank (length tasks) t ≤ rank (length tasks) s
Run-rank f tasks s t n done = omega arith
Run-rank f tasks s t (suc n) (more r st) = omega (arith, Run-rank f tasks s _ n r, Step-rank st)

abbrev pub hangups : List Request → ℕ
hangups [] = 0
hangups (quit ∷ rs) = hangups rs
hangups (hangup ∷ rs) = suc (hangups rs)

signals_rank-eq :
    (n : ℕ) (rs : List Request) → signals_rank n rs ≡ hangups rs * (n + 15) + 5 * length rs
signals_rank-eq n [] = grind arith
signals_rank-eq n (quit ∷ rs) = omega (arith, signals_rank-eq n rs)
signals_rank-eq n (hangup ∷ rs) = omega (arith, signals_rank-eq n rs, suc-mul (hangups rs) (n + 15))

-- With no wake-up but by a signal of the condition, the loop, its workers and the handlers take at
-- most as many steps as one more than the number of SIGHUPs times the number of tasks and 15, and 5
-- for each signal: none of them goes on for ever.
pub Run-bounded :
    {F : Type 0} (f : Float F) (tasks : List (PointTask F)) (signals : List Request)
    (points : List (Point F)) (s : State F) (n : ℕ)
    → Run f tasks (start f tasks signals points) n s
    → n ≤ (hangups signals + 1) * (length tasks + 15) + 5 * length signals
Run-bounded f tasks signals points s n r =
    let one : (hangups signals + 1) * (length tasks + 15)
        ≡ hangups signals * (length tasks + 15) + (length tasks + 15) =
      grind arith in
    omega (arith, one, Run-rank f tasks _ s n r, signals_rank-eq (length tasks) signals)
