-- ===== src/Threads/Calls.antt =====
-- Any sequence of calls of src/lib/thread_mgr, made by main and by the threads it manages.
use legacy_point_monitor.Common.{ℕ, refl, ◌≡◌, Bool, some}
use legacy_point_monitor.Common.Int.{ℤ}
use legacy_point_monitor.Common.Outcome.{Outcome, ok}
use legacy_point_monitor.Threads.State.{Function, ThreadInfo, Library, thread_at, initial}
use legacy_point_monitor.Threads.Signals.{
  SignalCalls, th_install_signal_handler, th_uninstall_signal_handler,
}
use legacy_point_monitor.Threads.Dispatch.{Refuses}
use legacy_point_monitor.Threads.Api.{
  ExecuteCalls, th_execute, func_decorator, th_exit, th_wait, th_wait_all, th_kill, th_kill_all,
  Others, th_use_sigint_handler, th_use_sigquit_handler,
}
use legacy_point_monitor.Threads.Table.{
  Fits, initial-Fits, begin-Fits, kill-Fits, kill_all-Fits, wait-Fits, wait_all-Fits, frame-Fits,
}
use legacy_point_monitor.Threads.Outcomes.{
  after, Returns, execute-Returns, exit-Returns, install-Returns, uninstall-Returns,
}

-- What a thread of the program does with the library in one go.
pub data Use : Type 0 where
  execute : ExecuteCalls → Function → Use
  begin exit kill : ℤ → Use
  kill_all : Use
  install : SignalCalls → ℤ → Function → Use
  uninstall : SignalCalls → ℤ → Use
  use_sigint use_sigquit : Bool → Use

unfoldable pub perform : Use → Library → Outcome Library
perform (execute c func) lib = after (th_execute c func lib)
perform (begin th) lib = ok (func_decorator th lib)
perform (exit th) lib = th_exit th lib
perform (kill th) lib = ok (th_kill th lib).1
perform kill_all lib = ok (th_kill_all lib).1
perform (install os s f) lib = after (th_install_signal_handler os s f lib)
perform (uninstall os s) lib = after (th_uninstall_signal_handler os s lib)
perform (use_sigint value) lib = ok (th_use_sigint_handler value lib)
perform (use_sigquit value) lib = ok (th_use_sigquit_handler value lib)

-- The library has a record under the handle.
abbrev pub HasRecord : ℤ → Library → Type 0
HasRecord th lib = (t : ThreadInfo) × (thread_at th lib ≡ some t)

-- A worker begins and exits while its record is in the table, and sigaddset refuses what is no signal.
abbrev pub Allowed : Use → Library → Type 0
Allowed (execute c func) lib = Refuses c.init.signals
Allowed (begin th) lib = HasRecord th lib
Allowed (exit th) lib = HasRecord th lib
Allowed (install os s f) lib = Refuses os
Allowed (uninstall os s) lib = Refuses os
Allowed _ lib = Unit

-- The library after any sequence of calls. While a thread waits in pthread_join, the others go on in the same way.
pub data Reach : Library → Library → Type 0 where
  done : {lib : Library} → Reach lib lib
  does :
      {lib lib' lib'' : Library} (u : Use)
      → Allowed u lib
      → perform u lib ≡ ok lib'
      → Reach lib' lib''
      → Reach lib lib''
  waits :
      {lib lib'' : Library} (others : Others) (th : ℤ)
      → ((p : ℕ) (l : Library) → Reach l (others p l))
      → Reach (th_wait others th lib).1 lib''
      → Reach lib lib''
  waits_all :
      {lib lib'' : Library} (others : Others)
      → ((p : ℕ) (l : Library) → Reach l (others p l))
      → Reach (th_wait_all others lib).1 lib''
      → Reach lib lib''

perform-Returns : (u : Use) {lib : Library} → Allowed u lib → Fits lib → Returns (perform u lib)
unfolding perform th_use_sigint_handler th_use_sigquit_handler
perform-Returns (execute c func) refuses fits = execute-Returns c func refuses fits
perform-Returns (begin th) here fits = begin-Fits th fits
perform-Returns (exit th) (t, here) fits = exit-Returns th t here fits
perform-Returns (kill th) a fits = kill-Fits th fits
perform-Returns kill_all a fits = kill_all-Fits fits
perform-Returns (install os s f) refuses fits = install-Returns os refuses s fits f
perform-Returns (uninstall os s) refuses fits = uninstall-Returns os refuses s fits
perform-Returns (use_sigint value) a fits = frame-Fits refl refl fits
perform-Returns (use_sigquit value) a fits = frame-Fits refl refl fits

Reach-Fits : {lib lib' : Library} → Reach lib lib' → Fits lib → Fits lib'
Reach-Fits done fits = fits
Reach-Fits (does u a e rest) fits =
    let returned = perform-Returns u a fits in
    let fits' : Fits _ = rw e at returned in Reach-Fits rest fits'
Reach-Fits (waits others th run rest) fits =
    Reach-Fits rest (wait-Fits (λ p l f. Reach-Fits (run p l) f) th fits)
Reach-Fits (waits_all others run rest) fits =
    Reach-Fits rest (wait_all-Fits (λ p l f. Reach-Fits (run p l) f) fits)

pub Reach-Returns :
    (lib : Library) (u : Use)
    → Reach initial lib
    → Allowed u lib
    → Fits lib × Returns (perform u lib)
Reach-Returns lib u reach allowed =
    let fits = Reach-Fits reach initial-Fits in (fits, perform-Returns u allowed fits)
