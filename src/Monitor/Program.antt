-- ===== src/Monitor/Program.antt =====
-- main of src/bin/monitor_shm/monitor_shm.c on the model of the shared memory library that it calls. The
-- exits of main itself give the calls made before, as its end does; the libraries have none of their own.
use legacy_point_monitor.Common.{
  ℕ, zero, suc, ◌+◌, Bool, false, Option, List, [], ◌∷◌, ◌++◌, ◌==◌, if◌then◌else◌,
}
use legacy_point_monitor.Common.Int.{ℤ, pos, negsuc, minus_one}
use legacy_point_monitor.Common.Outcome.{Outcome, ok, ◌>>=◌}
use legacy_point_monitor.Points.{Float, show_points}
use legacy_point_monitor.Store.Memory.{null}
use legacy_point_monitor.SharedMem.State.{Library, use_semaphores, shm_lock, shm_unlock}
use legacy_point_monitor.SharedMem.Connect.{ConnectCalls, connect_shm}
use legacy_point_monitor.SharedMem.Detach.{DetachCalls, detach_shm}
use legacy_point_monitor.SharedMem.Show.{SegmentLine, show_segments}
use legacy_point_monitor.Install.Startup.{shm_key, shm_size}
use legacy_point_monitor.Monitor.{
  Action, connecting, segments_shown, seconds_left, lock_lost, unlocked, slept, detached, shown,
  duration, Rounds,
}

-- What the program meets: the rounds, with the answers of semop to shm_lock, and the other answers.
pub record MonitorCalls (F : Type 0) : Type 0 where
  pub rounds : Rounds F
  pub unlock : ℕ → Bool
  pub connect : ConnectCalls
  pub first_lock : Bool
  pub first_unlock : Bool
  pub detach : DetachCalls

-- The status with which it returns or exits; what it logs of the segments, what it does, and the library
-- at its end.
pub record Monitored (F : Type 0) : Type 0 where
  pub status : ℤ
  pub segments : List SegmentLine
  pub actions : List (Action F)
  pub library : Library

module _ {F : Type 0} (f : Float F) (c : MonitorCalls F) where
  -- The body of the loop, from the call of shm_lock on.
  unfoldable pub round_on : ℕ → Library → Outcome (List (Action F) × Library)
  round_on i lib = do
    locked ← shm_lock (c.rounds.lock i) shm_key lib
    let report = shown (show_points f (c.rounds.points i))
    if locked.0
        then (do
          last ← shm_unlock (c.unlock i) shm_key locked.1
          ok (seconds_left ∷ report ∷ unlocked ∷ slept ∷ [], last.1))
        else ok (seconds_left ∷ lock_lost ∷ report ∷ slept ∷ [], locked.1)

  unfoldable pub rounds_on : ℕ → ℕ → Library → Outcome (List (Action F) × Library)
  unfolding round_on
  rounds_on zero i lib = ok ([], lib)
  rounds_on (suc seconds) i lib =
      if c.rounds.running i
      then (do
        first ← round_on i lib
        rest ← rounds_on seconds (i + 1) first.1
        ok (first.0 ++ rest.0, rest.1))
      else ok ([], lib)

  -- From connect_shm on.
  unfoldable pub watch : ℕ → Library → Outcome (Monitored F)
  unfolding rounds_on
  watch seconds lib = do
    r ← connect_shm c.connect shm_key shm_size lib
    locked ← shm_lock c.first_lock shm_key r.1
    lines ← show_segments locked.1
    open_again ← shm_unlock c.first_unlock shm_key locked.1
    if r.0 == null
        then ok (record {
          status = pos 1;
          segments = lines;
          actions = connecting ∷ segments_shown ∷ [];
          library = open_again.1;
        })
        else (do
          done ← rounds_on seconds 0 open_again.1
          last ← detach_shm c.detach r.0 done.1
          ok (record {
            status = pos 0;
            segments = lines;
            actions = connecting ∷ segments_shown ∷ done.0 ++ detached ∷ [];
            library = last.1;
          }))

  -- `exit(-1)`, where nothing has been called yet.
  abbrev refused : Library → Monitored F
  refused lib = record { status = minus_one; segments = []; actions = []; library = lib }

  unfoldable pub watch_for : ℤ → Library → Outcome (Monitored F)
  unfolding watch
  watch_for (pos zero) lib = ok (refused lib)
  watch_for (pos (suc n)) lib = watch (suc n) lib
  watch_for (negsuc n) lib = ok (refused lib)

  -- `main`, with the argument.
  unfoldable pub main : Option ℤ → Library → Outcome (Monitored F)
  unfolding watch_for
  main arg lib = watch_for (duration arg) (use_semaphores false lib)
