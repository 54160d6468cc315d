-- ===== src/Install/Startup/Handlers.antt =====
-- Which handlers install_data has installed when its loop begins.
use legacy_point_monitor.Common.{◌≡◌, refl, sym, ap, ◌∙◌, true, false, none, arith, if◌then◌else◌}
use legacy_point_monitor.Common.Int.{ℤ, ◌==ℤ◌}
use legacy_point_monitor.Common.Outcome.{Outcome, ok}
use legacy_point_monitor.Threads.State.{Library}
use legacy_point_monitor.Threads.Signals.{SignalCalls, Dispatched, invoked, unexpected}
use legacy_point_monitor.Threads.Api.{
  sigint, sigquit, th_use_sigint_handler, th_use_sigquit_handler, InitCalls, init_once, thread_init,
  selfpipe_init, install_if,
}
use legacy_point_monitor.Threads.Dispatch.{
  IsSignal, HandlersFit, deliver, deliver-number, Works, install-Binds,
}
use legacy_point_monitor.Threads.Served.{Keeps, Keeps-trans, install-Keeps}
use legacy_point_monitor.Threads.Bindings.{new-unexpected, with_table-deliver}
use legacy_point_monitor.Install.Startup.{
  sighup, graceful_exit, clear_and_restart, install_handlers,
}

-- What a signal reaches once main has installed its handlers.
abbrev pub reached : ℤ → Outcome Dispatched
reached q =
    if sighup ==ℤ q
    then ok (invoked clear_and_restart)
    else if sigquit ==ℤ q
    then ok (invoked graceful_exit)
    else if sigint ==ℤ q
    then ok (invoked graceful_exit)
    else ok unexpected

-- No call of thread_init fails but those that install the library's own handlers.
pub record InitSucceeds (c : InitCalls) : Type 0 where
  pub pipe : c.pipe_fails ≡ false
  pub get_flags : c.get_flags_fails ≡ false
  pub set_flags : c.set_flags_fails ≡ false
  pub create : c.create_fails ≡ false

-- There is no pipe yet that a signal could be written to; the initialisation that the first th_execute
-- does makes it, and in the state that it leaves each signal reaches what `reached` says.
abbrev pub Begins : InitCalls → Library → Type 0
Begins init lib =
    (lib.pipe_made ≡ false)
    × (begun : Library) × (init_once init lib ≡ ok begun)
    × (begun.pipe_made ≡ true)
    × ((q : ℤ) → IsSignal q → deliver begun q ≡ reached q)

pub init-Begins :
    (c : InitCalls) (lib : Library)
    → InitSucceeds c
    → lib.pipe_made ≡ false
    → lib.init_done ≡ false
    → lib.handle_sig_int ≡ false
    → lib.handle_sig_quit ≡ false
    → ((q : ℤ) → IsSignal q → deliver lib q ≡ reached q)
    → Begins c lib
unfolding init_once thread_init selfpipe_init install_if
init-Begins c lib works no_pipe first int_off quit_off reach =
    let begun : Library = record lib { pipe_made = true; init_done = true } in
    (
      no_pipe,
      begun,
      rw (first, works.pipe, works.get_flags, works.set_flags, works.create, quit_off, int_off)
          refl,
      refl,
      λ q is. deliver-number begun q is ∙ sym (deliver-number lib q is) ∙ reach q is,
    )

-- Where no handler is installed yet and no call fails, the calls of main return, and then SIGHUP
-- reaches clear_and_restart, SIGINT and SIGQUIT reach graceful_exit, and every other signal from 1
-- to 15, SIGTERM too, reaches no handler; the library leaves SIGINT and SIGQUIT to main.
pub handlers-reached :
    (os : SignalCalls) (lib : Library)
    → lib.signal_handlers ≡ none
    → Works os sigint
    → Works os sigquit
    → Works os sighup
    → (lib' : Library) × (install_handlers os lib ≡ ok lib')
      × ((q : ℤ) → IsSignal q → deliver lib' q ≡ reached q)
      × Keeps (record lib { handle_sig_int = false; handle_sig_quit = false }) lib'
unfolding install_handlers th_use_sigint_handler th_use_sigquit_handler
handlers-reached os lib empty works_int works_quit works_hup =
    let lib0 : Library = th_use_sigquit_handler false (th_use_sigint_handler false lib) in
    let fit : HandlersFit lib0 = rw empty tt in
    let (lib1, run1, fit1, binds1) =
      install-Binds os sigint graceful_exit lib0 fit (omega arith, omega arith) works_int in
    let (lib2, run2, fit2, binds2) =
      install-Binds os sigquit graceful_exit lib1 fit1 (omega arith, omega arith) works_quit in
    let (lib3, run3, fit3, binds3) =
      install-Binds os sighup clear_and_restart lib2 fit2 (omega arith, omega arith) works_hup in
    (
      lib3,
      rw (run1, run2, run3) refl,
      λ q p.
          binds3 q p
          ∙ ap (λ o. if sighup ==ℤ q then ok (invoked clear_and_restart) else o)
              (with_table-deliver lib2 sigquit (invoked graceful_exit) (omega arith, omega arith)
                  (binds2 sigquit (omega arith, omega arith)) q p
                ∙ binds2 q p
                ∙ ap (λ o. if sigquit ==ℤ q then ok (invoked graceful_exit) else o)
                    (with_table-deliver lib1 sigint (invoked graceful_exit)
                        (omega arith, omega arith) (binds1 sigint (omega arith, omega arith)) q p
                      ∙ binds1 q p
                      ∙ ap (λ o. if sigint ==ℤ q then ok (invoked graceful_exit) else o)
                          (new-unexpected lib0 q empty p))),
      Keeps-trans
          (Keeps-trans (install-Keeps os sigint graceful_exit true lib1 run1)
            (install-Keeps os sigquit graceful_exit true lib2 run2))
          (install-Keeps os sighup clear_and_restart true lib3 run3),
    )
