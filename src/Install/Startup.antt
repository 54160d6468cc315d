-- ===== src/Install/Startup.antt =====
-- src/bin/install_data/install_data.c: main before and after its loop, on the models of the libraries that
-- it calls. Exits are values; a signal that arrives here is not looked at.
pub mod Handlers
pub mod Destroyed
use legacy_point_monitor.Common.{
  ℕ, Bool, false, Option, none, some, List, ◌==◌, if◌then◌else◌, ◌&&◌,
}
use legacy_point_monitor.Common.Int.{ℤ, pos}
use legacy_point_monitor.Common.Outcome.{Outcome, ok, exited, ◌>>=◌}
use legacy_point_monitor.Points.{TaskLine}
use legacy_point_monitor.Install.Tasks.{
  ItemList, FileLine, Loaded, no_tasks, read_lines_at, tasks_shown,
}
use legacy_point_monitor.Store.Memory.{Ptr, null}
use legacy_point_monitor.Threads.State as ThreadState
use legacy_point_monitor.Threads.State.{Function}
use legacy_point_monitor.Threads.Signals.{
  SignalCalls, th_install_signal_handler, th_uninstall_signal_handler,
}
use legacy_point_monitor.Threads.Api.{
  sigint, sigquit, th_use_sigint_handler, th_use_sigquit_handler,
}
use legacy_point_monitor.SharedMem.State as SharedState
use legacy_point_monitor.SharedMem.State.{use_semaphores, shm_lock, shm_unlock}
use legacy_point_monitor.SharedMem.Connect.{ConnectCalls, connect_shm}
use legacy_point_monitor.SharedMem.Show.{SegmentLine, show_segments}
use legacy_point_monitor.SharedMem.Detach.{DestroyCalls, destroy_shm}

abbrev pub shm_key : ℤ
shm_key = pos 8675309

-- `MAX_NUM_POINTS*sizeof(Point)`
abbrev pub shm_size : ℤ
shm_size = pos 240

-- The number of SIGHUP.
abbrev pub sighup : ℤ
sighup = pos 1

-- The addresses of the handlers.
abbrev pub graceful_exit : Function
graceful_exit = 3

abbrev pub clear_and_restart : Function
clear_and_restart = 4

-- `argc`, where a second argument "-q" does not count.
abbrev pub arguments : ℕ → Bool → ℕ
arguments argc second_is_q = if argc == 3 && second_is_q then 2 else argc

-- The calls up to the installation of the last handler; what they return is not looked at.
unfoldable pub install_handlers : SignalCalls → ThreadState.Library → Outcome ThreadState.Library
install_handlers os lib = do
  let lib = th_use_sigquit_handler false (th_use_sigint_handler false lib)
  a ← th_install_signal_handler os sigint graceful_exit lib
  b ← th_install_signal_handler os sigquit graceful_exit a.1
  c ← th_install_signal_handler os sighup clear_and_restart b.1
  ok c.1

-- The file's lines if it could be opened, and the answers of the kernel.
pub record StartCalls (F : Type 0) : Type 0 where
  pub signals : SignalCalls
  pub file : Option (List (FileLine F))
  pub connect : ConnectCalls
  pub sem_wait : Bool
  pub sem_post : Bool

-- What main has when it enters the loop, and what it has logged of the tasks and the segments.
pub record Started (list : ItemList) (F : Type 0) : Type 0 where
  pub tasks : Loaded list F
  pub threads : ThreadState.Library
  pub segments : SharedState.Library
  pub address : Ptr
  pub task_lines : List (TaskLine F)
  pub segment_lines : List SegmentLine

module _ (list : ItemList) {F : Type 0} where
  -- From the lines of the file on.
  unfoldable pub attach :
      StartCalls F
      → List (FileLine F)
      → ThreadState.Library
      → SharedState.Library
      → Outcome (Started list F)
  attach c lines threads segments = do
    tasks ← read_lines_at list lines (no_tasks list)
    task_lines ← tasks_shown list tasks
    r ← connect_shm c.connect shm_key shm_size segments
    locked ← shm_lock c.sem_wait shm_key r.1
    segment_lines ← show_segments locked.1
    unlocked ← shm_unlock c.sem_post shm_key locked.1
    if r.0 == null
        then exited (pos 1)
        else ok (record {
          tasks = tasks;
          threads = threads;
          segments = unlocked.1;
          address = r.0;
          task_lines = task_lines;
          segment_lines = segment_lines;
        })

  unfoldable pub start_up :
      StartCalls F → ℕ → Bool → ThreadState.Library → SharedState.Library → Outcome (Started list F)
  unfolding attach
  start_up c argc second_is_q threads segments = do
    let segments = use_semaphores false segments
    threads ← install_handlers c.signals threads
    if arguments argc second_is_q == 2
        then elim c.file [ none ↦ exited (pos 1) | some lines ↦ attach c lines threads segments ]
        else exited (pos 1)

  -- After the loop; the result is that of main, the answers of the first two calls are only logged.
  unfoldable pub finish :
      SignalCalls
      → DestroyCalls
      → Loaded list F
      → ThreadState.Library
      → SharedState.Library
      → Outcome (ThreadState.Library × SharedState.Library × list.State)
  finish os c tasks threads segments = do
    u ← th_uninstall_signal_handler os sighup threads
    d ← destroy_shm c shm_key segments
    state ← list.destroy tasks.state
    ok (u.1, d.1, state)
