-- ===== src/Threads/Api.antt =====
-- The functions of src/lib/thread_mgr/thread_mgr.c on the table of threads. What the calls of the C
-- library answer is an argument. Each is modelled as it runs in one thread; what other threads do
-- while pthread_join blocks is an argument too. Where a mutex is locked and unlocked again round a
-- read, with no exit in between, nothing is left to model.
use legacy_point_monitor.Common.{
  ℕ, zero, suc, ◌+◌, Bool, true, false, Option, none, some, List, [], ◌∷◌, ◌==◌, if◌then◌else◌,
}
use legacy_point_monitor.Common.Int.{ℤ, pos, ◌==ℤ◌, ◌&ℤ◌}
use legacy_point_monitor.Common.Outcome.{Outcome, ok, fault, exited, ◌>>=◌}
use legacy_point_monitor.Threads.State.{
  max_threads, thd_ok, thd_error, Function, ThreadState, pending, running, cancelled, finished,
  ThreadInfo, cancel, join, Library, thread_at, put_thread, lock_store, unlock_store, lock_thread,
  unlock_thread, th_valid_handle,
}
use legacy_point_monitor.Threads.Signals.{SignalCalls, th_install_signal_handler}
use legacy_point_monitor.Threads.Name.{set_thread_name, thread_name_size}

-- The answers of pipe, fcntl (F_GETFL and F_SETFL) and pthread_create in thread_init: true for an error.
pub record InitCalls : Type 0 where
  pub pipe_fails : Bool
  pub get_flags_fails : Bool
  pub set_flags_fails : Bool
  pub create_fails : Bool
  pub signals : SignalCalls

-- `&sigquit_handler` and `&sigint_handler`, with the numbers of SIGQUIT and SIGINT.
abbrev pub sigquit_handler : Function
sigquit_handler = 1

abbrev pub sigint_handler : Function
sigint_handler = 2

abbrev pub sigquit : ℤ
sigquit = pos 3

abbrev pub sigint : ℤ
sigint = pos 2

unfoldable pub selfpipe_init : InitCalls → Library → Outcome Library
selfpipe_init c lib =
    if c.pipe_fails
    then exited thd_error
    else if c.get_flags_fails
    then exited thd_error
    else if c.set_flags_fails
    then exited thd_error
    else ok (record lib { pipe_made = true })

unfoldable pub install_if : Bool → SignalCalls → ℤ → Function → Library → Outcome Library
install_if true os signum handler lib = do
  r ← th_install_signal_handler os signum handler lib
  ok r.1
install_if false os signum handler lib = ok lib

unfoldable pub thread_init : InitCalls → Library → Outcome Library
unfolding selfpipe_init install_if
thread_init c lib = do
  lib ← selfpipe_init c lib
  lib ← if c.create_fails then exited thd_error else ok lib
  lib ← install_if lib.handle_sig_quit c.signals sigquit sigquit_handler lib
  install_if lib.handle_sig_int c.signals sigint sigint_handler lib

-- `pthread_once(&InitDone, thread_init)`
unfoldable pub init_once : InitCalls → Library → Outcome Library
init_once c lib =
    if lib.init_done
    then ok lib
    else do lib ← thread_init c lib; ok (record lib { init_done = true })

unfoldable pub first_free : ℕ → List (Option ThreadInfo) → ℤ
first_free idx [] = thd_error
first_free idx (none ∷ threads) = pos idx
first_free idx (some t ∷ threads) = first_free (idx + 1) threads

unfoldable pub get_next_handle : Library → ℤ
unfolding first_free
get_next_handle lib = first_free 0 lib.threads

-- What malloc, pthread_create (the new thread, or none for an error) and rand answer in th_execute.
pub record ExecuteCalls : Type 0 where
  pub init : InitCalls
  pub malloc_fails : Bool
  pub create : Option ℕ
  pub rand : ℕ → ℕ

-- The thread is created; the record is stored only if that succeeds. A failure returns with StoreLock
-- held.
unfoldable pub store_created : Option ℕ → ℤ → ThreadInfo → Library → ℤ × Library
store_created none handle t lib = (thd_error, lib)
store_created (some p) handle t lib =
    (handle, unlock_store (put_thread handle (some (record t { pthread = p })) lib))

unfoldable pub execute_at : ExecuteCalls → Function → ℤ → Library → ℤ × Library
execute_at c func handle lib =
    let locked = lock_store lib in
    if c.malloc_fails
    then (thd_error, unlock_store locked)
    else store_created c.create handle
        (record {
          pthread = 0;
          lock = 0;
          handle = handle;
          state = pending;
          name = set_thread_name c.rand thread_name_size;
          func = func;
        })
        locked

unfoldable pub th_execute : ExecuteCalls → Function → Library → Outcome (ℤ × Library)
unfolding init_once get_next_handle execute_at store_created
th_execute c func lib = do
  lib ← init_once c.init lib
  let handle = get_next_handle lib
  ok (
      if func == 0
      then (thd_error, lib)
      else if handle ==ℤ thd_error
      then (handle, lib)
      else execute_at c func handle lib)

-- A worker's first steps, up to the call of its function.
unfoldable pub set_state : ThreadState → Option ThreadInfo → Option ThreadInfo
set_state s none = none
set_state s (some t) = some (record t { state = s })

unfoldable pub func_decorator : ℤ → Library → Library
unfolding set_state
func_decorator th lib = put_thread th (set_state running (thread_at th lib)) lib

-- th_exit in the worker with the handle; its thread ends there.
unfoldable pub exit_at : ℤ → Option ThreadInfo → Library → Outcome Library
exit_at th none lib = fault
exit_at th (some t) lib = ok (put_thread th (some (record t { state = finished })) lib)

unfoldable pub th_exit : ℤ → Library → Outcome Library
unfolding exit_at
th_exit th lib = exit_at th (thread_at th lib) lib

unfoldable pub th_cleanup : ℤ → Library → Library
th_cleanup th lib = unlock_store (put_thread th none (lock_store lib))

-- What the other threads have done to the library by the time pthread_join returns.
abbrev pub Others : Type 0
Others = ℕ → Library → Library

unfoldable pub joined : Others → ThreadState → ℕ → Library → Library
joined others finished p lib = lib
joined others _ p lib = others p (record lib { calls = join p ∷ lib.calls })

unfoldable pub wait_at : Others → ℤ → Option ThreadInfo → Library → ℤ × Library
wait_at others th none lib = (thd_error, lib)
wait_at others th (some t) lib = (thd_ok, th_cleanup th (joined others t.state t.pthread lib))

unfoldable pub th_wait : Others → ℤ → Library → ℤ × Library
unfolding wait_at joined th_cleanup th_valid_handle
th_wait others th lib =
    if th_valid_handle th then wait_at others th (thread_at th lib) lib else (thd_error, lib)

abbrev pub has_ended : ThreadState → Bool
has_ended cancelled = true
has_ended finished = true
has_ended _ = false

unfoldable pub kill_at : ℤ → Option ThreadInfo → Library → ℤ × Library
kill_at th none lib = (thd_error, lib)
kill_at th (some t) lib =
    let locked = lock_thread t in
    if has_ended t.state then (thd_error, put_thread th (some (unlock_thread locked)) lib) else (
      thd_ok,
      put_thread th (some (unlock_thread (record locked { state = cancelled })))
          (record lib { calls = cancel t.pthread ∷ lib.calls }),
    )

unfoldable pub th_kill : ℤ → Library → ℤ × Library
unfolding kill_at th_valid_handle
th_kill th lib = if th_valid_handle th then kill_at th (thread_at th lib) lib else (thd_error, lib)

-- `for (idx = ...; idx < MAX_THREADS; idx++) ret &= f(idx);`, with the rounds left.
unfoldable pub and_all : (ℤ → Library → ℤ × Library) → ℕ → ℕ → ℤ → Library → ℤ × Library
and_all f zero idx ret lib = (ret, lib)
and_all f (suc rounds) idx ret lib =
    let r = f (pos idx) lib in and_all f rounds (idx + 1) (ret &ℤ r.0) r.1

unfoldable pub th_wait_all : Others → Library → ℤ × Library
unfolding and_all
th_wait_all others lib = and_all (th_wait others) max_threads 0 thd_error lib

unfoldable pub th_kill_all : Library → ℤ × Library
unfolding and_all
th_kill_all lib = and_all th_kill max_threads 0 thd_error lib

unfoldable pub state_of : Option ThreadInfo → Option ThreadState
state_of none = none
state_of (some t) = some t.state

-- The state that is printed, NULL for no thread.
unfoldable pub get_thread_state : ℤ → Library → Option ThreadState
unfolding state_of th_valid_handle
get_thread_state th lib = if th_valid_handle th then state_of (thread_at th lib) else none

unfoldable pub th_use_sigint_handler : Bool → Library → Library
th_use_sigint_handler value lib = record lib { handle_sig_int = value }

unfoldable pub th_use_sigquit_handler : Bool → Library → Library
th_use_sigquit_handler value lib = record lib { handle_sig_quit = value }
