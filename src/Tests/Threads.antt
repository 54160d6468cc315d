-- ===== src/Tests/Threads.antt =====
-- The thread calls at small tables.
use legacy_point_monitor.Common.{ℕ, ◌≡◌, refl, true, false, Option, none, some, [], ◌∷◌, arith, set}
use legacy_point_monitor.Common.Int.{pos, ◌&ℤ◌}
use legacy_point_monitor.Common.Outcome.{ok}
use legacy_point_monitor.Threads.State.{thd_error, ThreadInfo, Library, initial, lock_store}
use legacy_point_monitor.Threads.Api.{
  InitCalls, ExecuteCalls, init_once, th_execute, th_kill, th_kill_all, Others,
}
use legacy_point_monitor.Threads.Wait.{Quiet, WaitsAll, wait_all-purges}
use legacy_point_monitor.Threads.Kill.{KillsAll, kill_all-ends}
use legacy_point_monitor.Threads.Execute.{IsFirstFree, new_info, execute-stores, execute-leaks_lock}
use legacy_point_monitor.Threads.Signals.{SignalCalls}
use legacy_point_monitor.Threads.Name.{set_thread_name, thread_name_size, name_capacity}
use legacy_point_monitor.Threads.NameBytes.{IsName, set_thread_name-IsName}
use legacy_point_monitor.Common.{length, ◌≤◌}

abbrev signals_work : SignalCalls
signals_work = record {
  sigemptyset_fails = false;
  sigaddset_fails = λ s. false;
  sigprocmask_fails = λ s. false;
  sigaction_fails = λ s. false;
}

abbrev init_works : InitCalls
init_works = record {
  pipe_fails = false;
  get_flags_fails = false;
  set_flags_fails = false;
  create_fails = false;
  signals = signals_work;
}

abbrev calls : Option ℕ → ExecuteCalls
calls p = record { init = init_works; malloc_fails = false; create = p; rand = λ n. n }

-- Past the initialisation.
abbrev start : Library
start = record initial { init_done = true }

ready : init_once init_works start ≡ ok start
unfolding init_once
ready = refl

start_free : IsFirstFree 0 start
start_free = (omega arith, refl, λ j lt. elim lt [ ])

execute-stores_example :
    th_execute (calls (some 77)) 500 start
    ≡ ok (
      pos 0,
      record start { threads = set start.threads 0 (some (new_info (calls (some 77)) 500 0 77)) },
    )
execute-stores_example =
    execute-stores (calls (some 77)) 500 start start ready (omega arith) 0 77 start_free refl refl

execute-leaks_lock_example : th_execute (calls none) 500 start ≡ ok (thd_error, lock_store start)
execute-leaks_lock_example =
    execute-leaks_lock (calls none) 500 start start ready (omega arith) 0 start_free refl refl

-- One pending thread under the handle 0.
abbrev worker : ThreadInfo
worker = new_info (calls (some 77)) 500 0 77

abbrev one : Library
one = record start { threads = some worker ∷ [] }

-- The worker has exited by the time the join returns.
abbrev others : Others
others p lib = lib

others-Quiet : Quiet others
others-Quiet = record { records = λ p lib i. refl; lock = λ p lib. refl }

wait_all-purges_example : WaitsAll others-Quiet one
wait_all-purges_example = wait_all-purges others-Quiet one

kill_all-ends_example : KillsAll one
kill_all-ends_example = kill_all-ends one

-- The library answers THD_OK to the first th_kill_all, and THD_ERROR to the second.
kill_all_twice : (th_kill_all (th_kill_all one).1).0 ≡ thd_error
unfolding th_kill_all th_kill ◌&ℤ◌
kill_all_twice = refl

set_thread_name-IsName_example :
    IsName 7 (set_thread_name (λ n. n) thread_name_size)
    × (length (set_thread_name (λ n. n) thread_name_size) ≤ name_capacity)
set_thread_name-IsName_example = set_thread_name-IsName (λ n. n)
