-- ===== src/Threads/Manager.antt =====
-- The functions of src/lib/thread_mgr/thread_mgr.c that print the records, the library's own signal
-- handlers, and the loop of the manager thread that calls them. A printed line is a value.
use legacy_point_monitor.Common.{
  ℕ, zero, suc, ◌+◌, Option, none, some, List, [], ◌∷◌, ◌++◌, ◌==◌, if◌then◌else◌,
}
use legacy_point_monitor.Common.Int.{ℤ, pos}
use legacy_point_monitor.Common.Outcome.{Outcome, ok, ◌>>=◌}
use legacy_point_monitor.Threads.State.{
  max_threads, Function, ThreadState, ThreadInfo, Library, thread_at, th_valid_handle,
}
use legacy_point_monitor.Threads.Signals.{
  Written, thread_signal_handler, pipe_closed, unexpected, invoked, mgr_round,
}
use legacy_point_monitor.Threads.Api.{sigint_handler, sigquit_handler, th_kill_all}

-- `<Thread>(handle:%d name:%s state:%s)`
pub record ThreadLine : Type 0 where
  pub handle : ℤ
  pub name : List ℕ
  pub state : ThreadState

-- What show_all_threads prints: its first line `Manged Threads:`, and the lines of the threads.
pub data Printed : Type 0 where
  threads_header : Printed
  thread_line : ThreadLine → Printed

-- The line for a record, nothing for NULL.
unfoldable pub line_of : Option ThreadInfo → List Printed
line_of none = []
line_of (some t) = thread_line (record { handle = t.handle; name = t.name; state = t.state }) ∷ []

-- `for (handle = ...; handle < MAX_THREADS; handle++)`, with the rounds left.
unfoldable pub show_from : ℕ → ℕ → Library → List Printed
unfolding line_of
show_from zero handle lib = []
show_from (suc rounds) handle lib =
    line_of (thread_at (pos handle) lib) ++ show_from rounds (handle + 1) lib

unfoldable pub show_all_threads : Library → List Printed
unfolding show_from
show_all_threads lib = threads_header ∷ show_from max_threads 0 lib

-- What show_thread logs behind its message: the record with its pthread, or the handle as invalid.
pub data ThreadEntry : Type 0 where
  shown : ThreadLine → ℕ → ThreadEntry
  invalid : ℤ → ThreadEntry

unfoldable pub entry_of : ℤ → Option ThreadInfo → ThreadEntry
entry_of th none = invalid th
entry_of th (some t) =
    shown (record { handle = t.handle; name = t.name; state = t.state }) t.pthread

unfoldable pub show_thread : ℤ → Library → ThreadEntry
unfolding entry_of th_valid_handle
show_thread th lib = if th_valid_handle th then entry_of th (thread_at th lib) else invalid th

unfoldable pub name_in : Option ThreadInfo → Option (List ℕ)
name_in none = none
name_in (some t) = some t.name

-- `th` is the handle that the calling thread keeps; NULL for no thread.
unfoldable pub get_thread_name : ℤ → Library → Option (List ℕ)
unfolding name_in th_valid_handle
get_thread_name th lib = if th_valid_handle th then name_in (thread_at th lib) else none

-- What a callback prints, and the library after it. The application's own ones are an argument.
abbrev pub Callbacks : Type 0
Callbacks = Function → Library → List Printed × Library

-- `(*(callback->func))()`, with the bodies of sigint_handler and sigquit_handler.
unfoldable pub call_back : Callbacks → Callbacks
call_back app f lib =
    if f == sigint_handler
    then (show_all_threads lib, lib)
    else if f == sigquit_handler
    then ([], (th_kill_all lib).1)
    else app f lib

-- The loop of mgr_thread on the bytes that it reads, up to where it waits for more.
unfoldable pub mgr_thread : Callbacks → List ℕ → Library → Outcome (List Printed × Library)
unfolding call_back
mgr_thread app [] lib = ok ([], lib)
mgr_thread app (byte ∷ bytes) lib = do
  d ← mgr_round lib byte
  elim d [
    | pipe_closed ↦ ok ([], lib)
    | unexpected ↦ mgr_thread app bytes lib
    | invoked f ↦
        let called = call_back app f lib in
        do rest ← mgr_thread app bytes called.1; ok (called.0 ++ rest.0, rest.1)
  ]

-- Signals that arrive one after the other, each written to the pipe.
unfoldable pub send_all : Written → List ℤ → List ℕ → Outcome (List ℕ)
send_all w [] pipe = ok pipe
send_all w (signum ∷ signals) pipe = do
  pipe ← thread_signal_handler w signum pipe
  send_all w signals pipe
