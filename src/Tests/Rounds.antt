-- ===== src/Tests/Rounds.antt =====
-- The loop of install_data on the table of threads, started again three times.
use legacy_point_monitor.Common.{
  ℕ, zero, suc, Option, eq_of_some, ◌≡◌, refl, ap, true, false, none, some, get_or-replicate,
}
use legacy_point_monitor.Common.Int.{pos}
use legacy_point_monitor.Threads.State as ThreadState
use legacy_point_monitor.Threads.State.{
  max_threads, thd_ok, initial, ThreadState, running, finished, put_thread, thread_at,
}
use legacy_point_monitor.Threads.Api.{ExecuteCalls, init_once, set_state, th_kill_all}
use legacy_point_monitor.Threads.Table.{initial-Fits, frame-Fits}
use legacy_point_monitor.Threads.Wait.{is_some}
use legacy_point_monitor.Install.Rounds.{RoundCalls, blocked}
use legacy_point_monitor.Install.Rounds.Restarted.{Stands, Course, again, waits, loop-Restarts}
use legacy_point_monitor.Install.Rounds.Single.{Proceeds, Idle}
use legacy_point_monitor.Install.Rounds.Calm.{Calm, state-Calm, Calm-then, kill_all-Calm}
use legacy_point_monitor.Tests.Signals.{os}

-- Rounds of the loop, each with a SIGHUP: in the first three the worker starts and exits, and all threads
-- are killed, before main goes on; in the fourth main waits for ever.
abbrev executing : ExecuteCalls
executing = record {
  init = record {
    pipe_fails = false;
    get_flags_fails = false;
    set_flags_fails = false;
    create_fails = false;
    signals = os;
  };
  malloc_fails = false;
  create = some 77;
  rand = λ i. 0;
}

-- What func_decorator and th_exit do in the worker with the handle 0.
abbrev in_state : ThreadState → ThreadState.Library → ThreadState.Library
in_state st lib = put_thread (pos 0) (set_state st (thread_at (pos 0) lib)) lib

abbrev usually : ThreadState.Library → ThreadState.Library
usually lib = (th_kill_all (in_state finished (in_state running lib))).1

abbrev wakes : ℕ → Option (ThreadState.Library → ThreadState.Library)
wakes (suc (suc (suc i))) = none
wakes _ = some usually

abbrev rounds : ℕ → RoundCalls
rounds i = record {
  execute = executing;
  meanwhile = wakes i;
  others = λ p lib. lib;
  reinstall = true;
}

wakes-Calm : (i : ℕ) (f : ThreadState.Library → ThreadState.Library) → wakes i ≡ some f → Calm f
wakes-Calm i f e = by_case i e
  where
    woken_by : (g : ThreadState.Library → ThreadState.Library) → Calm g → some g ≡ some f → Calm f
    woken_by g calm same = rw (← eq_of_some g f same) calm

    usual : some usually ≡ some f → Calm f
    usual =
        woken_by usually
          (Calm-then (Calm-then (state-Calm 0 running) (state-Calm 0 finished)) kill_all-Calm)

    by_case : (j : ℕ) → wakes j ≡ some f → Calm f
    by_case zero same = usual same
    by_case (suc zero) same = usual same
    by_case (suc (suc zero)) same = usual same
    by_case (suc (suc (suc j))) same = cc

rounds-Proceeds : (i : ℕ) → Proceeds (rounds i)
rounds-Proceeds i = record {
  memory = refl;
  created = (77, refl);
  meanwhile = wakes-Calm i;
  others = λ p. record {
    fits = λ lib f. f;
    records = λ lib j. refl;
    lock = λ lib. refl;
    init = λ lib. refl;
  };
}

abbrev ready : ThreadState.Library
ready = record initial { init_done = true }

ready-Idle : Idle ready
ready-Idle = record {
  fits = frame-Fits refl refl initial-Fits;
  empty = λ i lt. ap is_some (get_or-replicate max_threads i none);
  init = refl;
}

loop-Restarts_example : Stands 5 rounds 0 ready ready
loop-Restarts_example =
    loop-Restarts rounds 4 0 ready ready rounds-Proceeds (unfold init_once in refl) ready-Idle

-- It comes to that in five rounds at most.
stuck_in_fourth : Course rounds 5 0 blocked 3
stuck_in_fourth =
    again 4 0 2 blocked usually refl refl (
      again 3 1 1 blocked usually refl refl
        (again 2 2 0 blocked usually refl refl (waits 1 3 refl)))
