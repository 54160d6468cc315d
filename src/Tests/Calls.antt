-- ===== src/Tests/Calls.antt =====
-- A sequence of calls of the thread library, with a thread that kills while another waits.
use legacy_point_monitor.Threads.Manager.{
  Callbacks, Printed, threads_header, thread_line, show_all_threads,
}
use legacy_point_monitor.Threads.Shown.{Shows, show_all-managed}
use legacy_point_monitor.Threads.Served.{Own, serve, answered, init-serves}
use legacy_point_monitor.Common.{
  Option, none, ◌≡◌, map, List, [], ◌∷◌, refl, true, false, some, ltb,
}
use legacy_point_monitor.Common.Int.{pos, negsuc, to_u32}
use legacy_point_monitor.Common.Outcome.{Outcome, ok}
use legacy_point_monitor.Store.HashTable.{insert_hash_item, new_hash}
use legacy_point_monitor.Threads.State.{ThreadState, running, cancelled, Library, initial}
use legacy_point_monitor.Threads.Signals.{SignalCalls, th_install_signal_handler}
use legacy_point_monitor.Threads.Dispatch.{Refuses}
use legacy_point_monitor.Threads.Api.{
  th_kill_all, Others, ExecuteCalls, th_kill, th_wait_all, th_execute, thread_init, func_decorator,
  install_if,
}
use legacy_point_monitor.Threads.Table.{Fits}
use legacy_point_monitor.Threads.Calls.{Use, perform, Reach, Reach-Returns}

-- sigaddset as documented, and all else succeeds.
abbrev os : SignalCalls
os = record {
  sigemptyset_fails = false;
  sigaddset_fails = elim [ pos n ↦ ltb n 1 | negsuc n ↦ true ];
  sigprocmask_fails = λ s. false;
  sigaction_fails = λ s. false;
}

abbrev calls : ExecuteCalls
calls = record {
  init = record {
    pipe_fails = false;
    get_flags_fails = false;
    set_flags_fails = false;
    create_fails = false;
    signals = os;
  };
  malloc_fails = false;
  create = some 77;
  rand = λ n. n;
}

refuses : Refuses os
refuses = (λ n. refl, refl)

abbrev returned : Outcome Library → Library
returned (ok lib) = lib
returned _ = initial

-- A worker is started, begins, and is waited for while another thread cancels it.
abbrev started : Library
started = returned (perform (Use.execute calls 500) initial)

abbrev begun : Library
begun = returned (perform (Use.begin (pos 0)) started)

abbrev others : Others
others p lib = (th_kill (pos 0) lib).1

abbrev waited : Library
waited = (th_wait_all others begun).1

init-serves_example :
    (lib' : Library) × (thread_init calls.init initial ≡ ok lib')
    × (lib'.threads ≡ initial.threads)
    × ((app : Callbacks) (qs : List Own) → serve app qs lib' ≡ ok (answered qs lib'))
init-serves_example = init-serves calls.init initial tt refl refl (record {
  pipe = refl;
  get_flags = refl;
  set_flags = refl;
  create = refl;
  for_int = (refl, refl, refl, refl);
  for_quit = (refl, refl, refl, refl);
})

-- A worker that runs is printed, killed, and printed as cancelled.
state_printed : Printed → Option ThreadState
state_printed threads_header = none
state_printed (thread_line line) = some line.state

served_running :
    map state_printed (answered (Own.int ∷ Own.quit ∷ Own.int ∷ []) begun).0
    ≡ none ∷ some running ∷ none ∷ some cancelled ∷ []
unfolding state_printed answered show_all_threads th_kill_all th_kill perform th_execute thread_init
    install_if th_install_signal_handler insert_hash_item new_hash func_decorator to_u32
served_running = refl

run_begun : Reach initial begun
unfolding perform th_execute thread_init th_install_signal_handler insert_hash_item new_hash
    func_decorator to_u32 install_if
run_begun =
    Reach.does (Use.execute calls 500) refuses refl
      (Reach.does (Use.begin (pos 0)) (_, refl) refl Reach.done)

begun-Fits : Fits begun
begun-Fits = (Reach-Returns begun Use.kill_all run_begun tt).0

show_all-managed_example : Shows begun
show_all-managed_example = show_all-managed begun begun-Fits
