-- ===== src/Threads/State.antt =====
-- include/thread_mgr.h, and the static variables of src/lib/thread_mgr/thread_mgr.c.
use legacy_point_monitor.Common.{
  ℕ, ◌+◌, ◌-◌, Bool, true, false, Option, none, List, [], get_or, set, ltb, replicate,
}
use legacy_point_monitor.Common.Int.{ℤ, pos, negsuc, minus_one}
use legacy_point_monitor.Store.HashTable.{Hash}

abbrev pub max_threads : ℕ
max_threads = 50

abbrev pub thd_ok : ℤ
thd_ok = pos 0

abbrev pub thd_error : ℤ
thd_error = minus_one

-- The address of a function; 0 is NULL.
abbrev pub Function : Type 0
Function = ℕ

pub data ThreadState : Type 0 where
  pending running cancelled finished : ThreadState

-- `lock` is how often the mutex of the record is held, `name` the bytes of the name.
pub record ThreadInfo : Type 0 where
  pub pthread : ℕ
  pub lock : ℕ
  pub handle : ℤ
  pub state : ThreadState
  pub name : List ℕ
  pub func : Function

-- The calls of the thread library that the records below are changed with.
pub data Call : Type 0 where
  cancel join : ℕ → Call

-- `store_lock` is how often the calling thread holds the recursive mutex StoreLock; `calls` are the
-- joins and cancellations made, the last one first; `pipe_made` says whether PipeFD holds the two ends of
-- a pipe. The handlers are kept by signal number.
pub record Library : Type 0 where
  pub threads : List (Option ThreadInfo)
  pub store_lock : ℕ
  pub calls : List Call
  pub init_done : Bool
  pub pipe_made : Bool
  pub handle_sig_int : Bool
  pub handle_sig_quit : Bool
  pub signal_handlers : Option (Hash Function)

-- The state before the first call.
abbrev pub initial : Library
initial = record {
  threads = replicate max_threads none;
  store_lock = 0;
  calls = [];
  init_done = false;
  pipe_made = false;
  handle_sig_int = true;
  handle_sig_quit = true;
  signal_handlers = none;
}

-- `Threads[th]`, and the assignment to it.
abbrev pub thread_at : ℤ → Library → Option ThreadInfo
thread_at (pos n) lib = get_or lib.threads n none
thread_at (negsuc n) lib = none

abbrev pub put_thread : ℤ → Option ThreadInfo → Library → Library
put_thread (pos n) t lib = record lib { threads = set lib.threads n t }
put_thread (negsuc n) t lib = lib

-- pthread_mutex_lock and pthread_mutex_unlock on StoreLock and on the mutex of a record.
abbrev pub lock_store : Library → Library
lock_store lib = record lib { store_lock = lib.store_lock + 1 }

abbrev pub unlock_store : Library → Library
unlock_store lib = record lib { store_lock = lib.store_lock - 1 }

abbrev pub lock_thread : ThreadInfo → ThreadInfo
lock_thread t = record t { lock = t.lock + 1 }

abbrev pub unlock_thread : ThreadInfo → ThreadInfo
unlock_thread t = record t { lock = t.lock - 1 }

unfoldable pub th_valid_handle : ℤ → Bool
th_valid_handle (pos n) = ltb n max_threads
th_valid_handle (negsuc n) = false
