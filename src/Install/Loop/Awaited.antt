-- ===== src/Install/Loop/Awaited.antt =====
-- Where main waits before the worker signals, the loop comes to its end.
use legacy_point_monitor.Common.{◌≡◌, false}
use legacy_point_monitor.Install.Loop.{Main, Worker}
use legacy_point_monitor.Install.Loop.Installed.{has_signalled}

-- Main waits for a worker that has not signalled yet, or has been woken.
abbrev pub IsAwaited : {F : Type 0} → Main → Worker F → Type 0
IsAwaited Main.waiting w = has_signalled w ≡ false
IsAwaited Main.woken w = Unit
IsAwaited Main.unlocking w = Unit
IsAwaited Main.killing w = Unit
IsAwaited Main.joining w = Unit
IsAwaited Main.testing w = Unit
IsAwaited Main.ended w = Unit
IsAwaited Main.destroyed w = Unit
IsAwaited _ w = ⊥
