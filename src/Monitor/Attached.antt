-- ===== src/Monitor/Attached.antt =====
-- What monitor_shm does to the shared memory segment.
use legacy_point_monitor.Common.{ℕ, zero, suc, ◌+◌, ◌≡◌, refl, false, Option, ◌==◌, by_test}
use legacy_point_monitor.Common.Int.{ℤ, pos, negsuc}
use legacy_point_monitor.Common.Outcome.{Ensures, Ensures-bind, Ensures-then, Ensures-imply}
use legacy_point_monitor.Points.{Float}
use legacy_point_monitor.SharedMem.State.{Library, use_semaphores, shm_lock, shm_unlock}
use legacy_point_monitor.SharedMem.Connect.{connect_shm}
use legacy_point_monitor.SharedMem.Detach.{detach_shm}
use legacy_point_monitor.SharedMem.Show.{show_segments}
use legacy_point_monitor.SharedMem.Removals.{
  has_removed, SparesLib, Spares, SparesLib-trans, lock-Spares, unlock-Spares, connect-Spares,
}
use legacy_point_monitor.SharedMem.Removals.Detached.{detach-Spares}
use legacy_point_monitor.Install.Startup.{shm_key, shm_size}
use legacy_point_monitor.Monitor.{duration}
use legacy_point_monitor.Monitor.Program.{
  MonitorCalls, Monitored, round_on, rounds_on, watch, watch_for, main,
}

module _ {F : Type 0} (f : Float F) (c : MonitorCalls F) where
  round-Spares : (i : ℕ) (lib : Library) → Ensures (Spares lib) (round_on f c i lib)
  unfolding round_on
  round-Spares i lib =
      Ensures-bind (Spares lib) (Spares lib) (shm_lock (c.rounds.lock i) shm_key lib) _
        (lock-Spares (c.rounds.lock i) shm_key lib)
        λ locked kept.
          by_test (Ensures (Spares lib)) locked.0
            (Ensures-bind (Spares locked.1) (Spares lib) (shm_unlock (c.unlock i) shm_key locked.1)
              _ (unlock-Spares (c.unlock i) shm_key locked.1)
              λ last open_again. SparesLib-trans lib locked.1 last.1 kept open_again)
            (λ e. kept)

  rounds-Spares :
      (seconds i : ℕ) (lib : Library) → Ensures (Spares lib) (rounds_on f c seconds i lib)
  unfolding rounds_on
  rounds-Spares zero i lib = (refl, refl)
  rounds-Spares (suc seconds) i lib =
      by_test (Ensures (Spares lib)) (c.rounds.running i)
        (Ensures-bind (Spares lib) (Spares lib) (round_on f c i lib) _ (round-Spares i lib)
          λ first kept.
            Ensures-bind (Spares first.1) (Spares lib) (rounds_on f c seconds (i + 1) first.1) _
              (rounds-Spares seconds (i + 1) first.1)
              λ rest later. SparesLib-trans lib first.1 rest.1 kept later)
        (λ e. (refl, refl))

  abbrev SparesRun : Library → Monitored F → Type 0
  SparesRun lib run = SparesLib lib run.library

  watch-Spares : (seconds : ℕ) (lib : Library) → Ensures (SparesRun lib) (watch f c seconds lib)
  unfolding watch
  watch-Spares seconds lib =
      Ensures-bind (Spares lib) (SparesRun lib) (connect_shm c.connect shm_key shm_size lib) _
        (connect-Spares c.connect shm_key shm_size lib)
        λ r connected.
          Ensures-bind (Spares r.1) (SparesRun lib) (shm_lock c.first_lock shm_key r.1) _
            (lock-Spares c.first_lock shm_key r.1)
            λ locked got. Ensures-then (SparesRun lib) (show_segments locked.1) _ λ lines.
              Ensures-bind (Spares locked.1) (SparesRun lib)
                (shm_unlock c.first_unlock shm_key locked.1) _
                (unlock-Spares c.first_unlock shm_key locked.1)
                λ last given.
                  by_test (Ensures (SparesRun lib)) (r.0 == 0)
                    (SparesLib-trans lib r.1 last.1 connected
                      (SparesLib-trans r.1 locked.1 last.1 got given))
                    λ attached.
                      Ensures-bind (Spares last.1) (SparesRun lib) (rounds_on f c seconds 0 last.1)
                        _ (rounds-Spares seconds 0 last.1)
                        λ done watched.
                          Ensures-bind (Spares done.1) (SparesRun lib)
                            (detach_shm c.detach r.0 done.1) _ (detach-Spares c.detach r.0 done.1)
                            λ end left. SparesLib-trans lib r.1 end.1 connected (
                              SparesLib-trans r.1 locked.1 end.1 got (
                                SparesLib-trans locked.1 last.1 end.1 given
                                  (SparesLib-trans last.1 done.1 end.1 watched left)))

  -- Whatever the argument, the kernel's answers and the signals, monitor_shm removes no segment: where
  -- main returns, or exits for a bad duration or because the segment cannot be attached, its calls have
  -- removed a segment only if one had been removed before.
  pub main-Spares :
      (arg : Option ℤ) (lib : Library)
      → Ensures (λ run. has_removed run.library.calls ≡ has_removed lib.calls) (main f c arg lib)
  unfolding main watch_for use_semaphores
  main-Spares arg lib = for_duration (duration arg)
    where
      for_duration :
          (d : ℤ)
          → Ensures
              (λ run. has_removed run.library.calls ≡ has_removed lib.calls)
              (watch_for f c d (use_semaphores false lib))
      for_duration (pos zero) = refl
      for_duration (pos (suc n)) =
          let from = record lib { use_semaphores = false } in
          Ensures-imply (SparesRun from) _ (watch f c (suc n) from) (λ run spared. spared.0)
            (watch-Spares (suc n) from)
      for_duration (negsuc n) = refl
