-- ===== src/Threads/Served.antt =====
-- From thread_init to the manager thread: SIGINT and SIGQUIT are answered by the library itself.
use legacy_point_monitor.Common.{
  ℕ, ◌≡◌, refl, sym, ap, ◌∙◌, Bool, true, false, ◌||◌, some, List, [], ◌∷◌, ◌++◌, map, arith,
  by_test,
}
use mathlib.Core.List.{append-nil, append_assoc}
use legacy_point_monitor.Store.HashTable.{insert_hash_item}
use legacy_point_monitor.Common.Int.{ℤ}
use legacy_point_monitor.Common.Outcome.{Outcome, ok, ◌>>=◌, first_returns, eq_of_ok}
use legacy_point_monitor.Threads.State.{max_threads, thd_error, Function, Library}
use legacy_point_monitor.Threads.Signals.{
  SignalCalls, above_max, th_install_signal_handler, handlers_or_new, written,
  thread_signal_handler, mgr_round, invoked, dispatch_number,
}
use legacy_point_monitor.Threads.Dispatch.{
  IsSignal, HandlersFit, deliver, deliver-number, Works, install-Binds,
}
use legacy_point_monitor.Threads.Bindings.{with_table-deliver}
use legacy_point_monitor.Threads.Api.{
  InitCalls, thread_init, install_if, sigint, sigquit, sigint_handler, sigquit_handler, th_kill,
  th_kill_all,
}
use legacy_point_monitor.Threads.All.{and_all-induction}
use legacy_point_monitor.Threads.Kill.{kill-killed}
use legacy_point_monitor.Threads.Manager.{
  Printed, show_all_threads, Callbacks, mgr_thread, send_all,
}

-- The second library has the records, the flags and the state of the initialisation of the first one.
pub record Keeps (lib lib' : Library) : Type 0 where
  pub threads : lib'.threads ≡ lib.threads
  pub int_flag : lib'.handle_sig_int ≡ lib.handle_sig_int
  pub quit_flag : lib'.handle_sig_quit ≡ lib.handle_sig_quit
  pub init : lib'.init_done ≡ lib.init_done
  pub pipe : lib'.pipe_made ≡ lib.pipe_made

Keeps-refl : {lib : Library} → Keeps lib lib
Keeps-refl = record { threads = refl; int_flag = refl; quit_flag = refl; init = refl; pipe = refl }

pub Keeps-trans : {lib mid lib' : Library} → Keeps lib mid → Keeps mid lib' → Keeps lib lib'
Keeps-trans a b = record {
  threads = b.threads ∙ a.threads;
  int_flag = b.int_flag ∙ a.int_flag;
  quit_flag = b.quit_flag ∙ a.quit_flag;
  init = b.init ∙ a.init;
  pipe = b.pipe ∙ a.pipe;
}

pub install-Keeps :
    (os : SignalCalls) (s : ℤ) (f : Function) {lib : Library} (b : Bool) (lib' : Library)
    → th_install_signal_handler os s f lib ≡ ok (b, lib')
    → Keeps lib lib'
unfolding th_install_signal_handler
install-Keeps os s f {lib} b lib' =
    let P = λ (o : Outcome (Bool × Library)). o ≡ ok (b, lib') → Keeps lib lib' in
    let same : P (ok (false, lib)) = λ e. kept (false, lib) (eq_of_ok _ _ e) Keeps-refl in
    by_test P (above_max s) same λ low.
      by_test P (os.sigemptyset_fails || os.sigaddset_fails s) same λ set.
        by_test P (os.sigprocmask_fails s) same λ mask.
          by_test P (os.sigaction_fails s) same λ action. λ e.
            let (h, run, back) =
              first_returns (insert_hash_item (handlers_or_new lib.signal_handlers) s f 8) _ e in
            kept (true, record lib { signal_handlers = some h }) (eq_of_ok _ _ back)
              (record {
                threads = refl;
                int_flag = refl;
                quit_flag = refl;
                init = refl;
                pipe = refl;
              })
  where
    kept : (r : Bool × Library) → r ≡ (b, lib') → Keeps lib r.1 → Keeps lib lib'
    kept r e k = rw (← ap (λ (x : Bool × Library). x.1) e) k

install_if-ran :
    {b : Bool} (os : SignalCalls) (s : ℤ) (f : Function) (lib lib' : Library)
    → b ≡ true
    → th_install_signal_handler os s f lib ≡ ok (true, lib')
    → install_if b os s f lib ≡ ok lib'
unfolding install_if
install_if-ran os s f lib lib' on run = rw (on, run) refl

-- The two signals that the library handles itself.
pub data Own : Type 0 where
  int quit : Own

abbrev pub number : Own → ℤ
number int = sigint
number quit = sigquit

abbrev byte : Own → ℕ
byte int = 2
byte quit = 3

number-IsSignal : (q : Own) → IsSignal (number q)
number-IsSignal int = (omega arith, omega arith)
number-IsSignal quit = (omega arith, omega arith)

abbrev handler : Own → Function
handler int = sigint_handler
handler quit = sigquit_handler

abbrev OwnHandlers : Library → Type 0
OwnHandlers lib =
    (q : Own) → dispatch_number lib.signal_handlers (number q) ≡ ok (invoked (handler q))

deliver-OwnHandlers :
    (lib : Library)
    → deliver lib sigint ≡ ok (invoked sigint_handler)
    → deliver lib sigquit ≡ ok (invoked sigquit_handler)
    → OwnHandlers lib
deliver-OwnHandlers lib ints quits int =
    sym (deliver-number lib sigint (number-IsSignal int)) ∙ ints
deliver-OwnHandlers lib ints quits quit =
    sym (deliver-number lib sigquit (number-IsSignal quit)) ∙ quits

-- What the signals come to, one after the other: SIGINT prints the threads, and SIGQUIT kills all.
unfoldable pub answered : List Own → Library → List Printed × Library
answered [] lib = ([], lib)
answered (int ∷ qs) lib = let rest = answered qs lib in (show_all_threads lib ++ rest.0, rest.1)
answered (quit ∷ qs) lib = answered qs (th_kill_all lib).1

kill_all-handlers : (lib : Library) → (th_kill_all lib).1.signal_handlers ≡ lib.signal_handlers
unfolding th_kill_all
kill_all-handlers lib =
    and_all-induction (λ i l. l.signal_handlers ≡ lib.signal_handlers) th_kill
      (λ i l lt e. rw (kill-killed i l lt) e) max_threads 0 thd_error lib (omega arith) refl

send-bytes :
    (qs : List Own) (pipe : List ℕ)
    → send_all written (map number qs) pipe ≡ ok (pipe ++ map byte qs)
unfolding send_all thread_signal_handler
send-bytes [] pipe = ap ok (sym (append-nil pipe))
send-bytes (int ∷ qs) pipe =
    send-bytes qs (pipe ++ 2 ∷ []) ∙ ap ok (append_assoc pipe (2 ∷ []) (map byte qs))
send-bytes (quit ∷ qs) pipe =
    send-bytes qs (pipe ++ 3 ∷ []) ∙ ap ok (append_assoc pipe (3 ∷ []) (map byte qs))

mgr-answered :
    (app : Callbacks) (qs : List Own) (lib : Library)
    → OwnHandlers lib
    → mgr_thread app (map byte qs) lib ≡ ok (answered qs lib)
unfolding mgr_thread mgr_round answered
mgr-answered app [] lib own = refl
mgr-answered app (int ∷ qs) lib own = rw (own int, mgr-answered app qs lib own) refl
mgr-answered app (quit ∷ qs) lib own =
    rw (own quit, mgr-answered app qs (th_kill_all lib).1 (λ q. rw (kill_all-handlers lib) (own q)))
      refl

-- The signals are written to the pipe one after the other, and the manager thread reads them.
abbrev pub serve : Callbacks → List Own → Library → Outcome (List Printed × Library)
serve app qs lib = send_all written (map number qs) [] >>= (λ bytes. mgr_thread app bytes lib)

-- No call of thread_init fails.
pub record InitWorks (c : InitCalls) : Type 0 where
  pub pipe : c.pipe_fails ≡ false
  pub get_flags : c.get_flags_fails ≡ false
  pub set_flags : c.set_flags_fails ≡ false
  pub create : c.create_fails ≡ false
  pub for_int : Works c.signals sigint
  pub for_quit : Works c.signals sigquit

-- Where no call fails and both flags are set, thread_init returns with the same records; from then
-- on, whatever sequence of SIGINTs and SIGQUITs goes through the pipe, the manager thread prints
-- what show_all_threads prints at each SIGINT and does th_kill_all at each SIGQUIT, in the order of
-- the signals, and calls no handler of the application.
pub init-serves :
    (c : InitCalls) (lib : Library)
    → HandlersFit lib
    → lib.handle_sig_int ≡ true
    → lib.handle_sig_quit ≡ true
    → InitWorks c
    → (lib' : Library) × (thread_init c lib ≡ ok lib')
      × (lib'.threads ≡ lib.threads)
      × ((app : Callbacks) (qs : List Own) → serve app qs lib' ≡ ok (answered qs lib'))
unfolding thread_init
init-serves c lib fit int_on quit_on works =
    let piped : Library = record lib { pipe_made = true } in
    let (lib1, run1, fit1, binds1) =
      install-Binds c.signals sigquit sigquit_handler piped fit (number-IsSignal quit)
        works.for_quit in
    let keeps1 = install-Keeps c.signals sigquit sigquit_handler true lib1 run1 in
    let (lib2, run2, fit2, binds2) =
      install-Binds c.signals sigint sigint_handler lib1 fit1 (number-IsSignal int) works.for_int in
    let keeps2 = install-Keeps c.signals sigint sigint_handler true lib2 run2 in
    let bound = binds1 sigquit (number-IsSignal quit) in
    let quits : deliver lib2 sigquit ≡ ok (invoked sigquit_handler) =
      binds2 sigquit (number-IsSignal quit)
      ∙ with_table-deliver lib1 sigquit _ (number-IsSignal quit) bound sigquit
          (number-IsSignal quit)
      ∙ bound in
    let own = deliver-OwnHandlers lib2 (binds2 sigint (number-IsSignal int)) quits in
    (
      lib2,
      rw
          (
            works.pipe,
            works.get_flags,
            works.set_flags,
            works.create,
            install_if-ran c.signals sigquit sigquit_handler piped lib1 quit_on run1,
          )
          (install_if-ran c.signals sigint sigint_handler lib1 lib2 (keeps1.int_flag ∙ int_on)
            run2),
      keeps2.threads ∙ keeps1.threads,
      λ app qs. rw (send-bytes qs []) (mgr-answered app qs lib2 own),
    )
