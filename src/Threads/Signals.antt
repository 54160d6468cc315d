-- ===== src/Threads/Signals.antt =====
-- The signal handlers of src/lib/thread_mgr/thread_mgr.c: the table from signal numbers to callbacks, the
-- generic handler that writes the number to a pipe, and the manager thread that reads it back and
-- calls the callback.
use legacy_point_monitor.Common.{
  ℕ, ◌-◌, ◌%◌, ◌^◌, Bool, true, false, ◌||◌, Option, none, some, List, [], ◌∷◌, ◌++◌, ltb,
  if◌then◌else◌,
}
use legacy_point_monitor.Common.Int.{ℤ, pos, negsuc, minus_one, to_u32, ◌==ℤ◌}
use legacy_point_monitor.Common.Outcome.{Outcome, ok, fault, exited, ◌>>=◌}
use legacy_point_monitor.Store.HashTable.{
  HashNode, Hash, new_hash, get_hash_item, insert_hash_item, delete_hash_item,
}
use legacy_point_monitor.Threads.State.{Function, Library, thd_error}

abbrev pub max_signal : ℕ
max_signal = 15

-- What the signal calls of the C library answer, by signal: true for an error.
pub record SignalCalls : Type 0 where
  pub sigemptyset_fails : Bool
  pub sigaddset_fails : ℤ → Bool
  pub sigprocmask_fails : ℤ → Bool
  pub sigaction_fails : ℤ → Bool

-- `signum > MAX_SIGNAL`
abbrev pub above_max : ℤ → Bool
above_max (pos n) = ltb max_signal n
above_max (negsuc n) = false

-- `if (SignalHandlers == NULL) SignalHandlers = new_hash(MAX_SIGNAL);`
abbrev pub handlers_or_new : Option (Hash Function) → Hash Function
handlers_or_new none = new_hash max_signal
handlers_or_new (some h) = h

unfoldable pub th_install_signal_handler :
    SignalCalls → ℤ → Function → Library → Outcome (Bool × Library)
th_install_signal_handler os signum handler lib =
    if above_max signum
    then ok (false, lib)
    else if os.sigemptyset_fails || os.sigaddset_fails signum
    then ok (false, lib)
    else if os.sigprocmask_fails signum
    then ok (false, lib)
    else if os.sigaction_fails signum
    then ok (false, lib)
    else do
      h ← insert_hash_item (handlers_or_new lib.signal_handlers) signum handler 8
      ok (true, record lib { signal_handlers = some h })

unfoldable pub delete_handler : Option (Hash Function) → ℤ → Library → Outcome (Bool × Library)
delete_handler none signum lib = ok (false, lib)
delete_handler (some h) signum lib = do
  r ← delete_hash_item h signum
  ok (true, record lib { signal_handlers = some r.1 })

unfoldable pub th_uninstall_signal_handler : SignalCalls → ℤ → Library → Outcome (Bool × Library)
unfolding delete_handler
th_uninstall_signal_handler os signum lib =
    if above_max signum
    then ok (false, lib)
    else if os.sigemptyset_fails || os.sigaddset_fails signum
    then ok (false, lib)
    else if os.sigprocmask_fails signum
    then ok (false, lib)
    else delete_handler lib.signal_handlers signum lib

-- How `write` to the non-blocking end of the pipe ends.
pub data Written : Type 0 where
  written would_block failed : Written

-- The bytes in the pipe after `write`.
unfoldable pub sent : Written → ℕ → List ℕ → Outcome (List ℕ)
sent written byte pipe = ok (pipe ++ byte ∷ [])
sent would_block byte pipe = ok pipe
sent failed byte pipe = exited thd_error

-- `char sig_short = (char) signum & 0xFF`, written as one byte.
unfoldable pub thread_signal_handler : Written → ℤ → List ℕ → Outcome (List ℕ)
unfolding sent to_u32
thread_signal_handler w signum pipe =
    if above_max signum then exited thd_error else sent w (to_u32 signum % 2 ^ 8) pipe

-- `(short) value`, for a `char` that is signed.
unfoldable pub short_of_char : ℕ → ℤ
short_of_char byte = if ltb byte (2 ^ 7) then pos byte else negsuc (2 ^ 8 - 1 - byte)

-- What one round of the manager thread does with the byte that it reads.
pub data Dispatched : Type 0 where
  pipe_closed unexpected : Dispatched
  invoked : Function → Dispatched

abbrev pub invoke : Option (HashNode Function) → Dispatched
invoke none = unexpected
invoke (some n) = invoked n.value

-- The table is NULL only if no handler was ever installed.
unfoldable pub dispatch_number : Option (Hash Function) → ℤ → Outcome Dispatched
dispatch_number none signum = fault
dispatch_number (some h) signum = do node ← get_hash_item h signum; ok (invoke node)

-- A round of the loop in mgr_thread; -1 ends the loop.
unfoldable pub mgr_round : Library → ℕ → Outcome Dispatched
unfolding dispatch_number short_of_char
mgr_round lib byte =
    let signum = short_of_char byte in
    if signum ==ℤ minus_one then ok pipe_closed else dispatch_number lib.signal_handlers signum
