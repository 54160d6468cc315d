-- ===== src/Tests/Monitor.antt =====
-- Signals that arrive at monitor_shm.
use legacy_point_monitor.Common.{◌≡◌, refl, true, false, not, ◌&&◌, some, none, List, [], ◌∷◌}
use legacy_point_monitor.Common.Int.{ℤ, pos}
use legacy_point_monitor.Threads.Signals.{SignalCalls}
use legacy_point_monitor.Monitor.Signals.{
  Process, receive_all, set_signals, has_exit, signals-running,
}

abbrev os : SignalCalls
os = record {
  sigemptyset_fails = false;
  sigaddset_fails = λ s. false;
  sigprocmask_fails = λ s. false;
  sigaction_fails = λ s. false;
}

abbrev process : Process
process = record { blocked = λ s. false; handlers = λ s. none; running = true }

-- SIGTERM, and then SIGQUIT.
abbrev arriving : List ℤ
arriving = pos 15 ∷ pos 3 ∷ []

signals-running_example :
    (q : Process) × (receive_all arriving (set_signals os process) ≡ some q)
    × (q.running ≡ (true && not (has_exit arriving)))
signals-running_example =
    signals-running os arriving process (refl, (λ s. refl), (λ s. refl), (λ s. refl))
      (refl, (refl, tt))
