-- ===== src/Install/Loop/Progress.antt =====
-- Where the program can stop: at its end, or with main waiting for a signal that nobody will send.
use legacy_point_monitor.Common.{◌≡◌, ◌⊎◌, List, []}
use legacy_point_monitor.Points.{Float, PointTask}
use legacy_point_monitor.Install.Loop.{Main, Worker, Manager, State, Step}

-- Main has removed the segment, or has left on an error of th_execute.
abbrev pub HasEnded : {F : Type 0} → State F → Type 0
HasEnded s = (s.main ≡ Main.destroyed) ⊎ (s.main ≡ Main.aborted)

-- Main waits for a signal of the condition, the worker has exited, and no more signals arrive.
pub record IsLost {F : Type 0} (s : State F) : Type 0 where
  pub waits_still : s.main ≡ Main.waiting
  pub exited_before : s.worker ≡ Worker.exited
  pub no_handler : s.manager ≡ Manager.idle
  pub no_signals : s.signals ≡ []

module _ {F : Type 0} (f : Float F) (tasks : List (PointTask F)) where
  abbrev pub Moves : State F → Type 0
  Moves s = (t : State F) × Step f tasks s t

  abbrev Outcomes : State F → Type 0
  Outcomes s = Moves s ⊎ HasEnded s ⊎ IsLost s
