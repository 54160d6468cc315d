-- ===== src/Threads/Outcomes.antt =====
-- What the calls that may fail come to: they return with the tables well formed, or exit.
use legacy_point_monitor.Common.{
  by_test, ℕ, ◌≡◌, ◌≢◌, refl, ◌∙◌, Bool, true, false, ◌||◌, ◌==◌, Option, none, some, if◌then◌else◌,
  ne_of_beq,
}
use legacy_point_monitor.Common.Int.{ℤ, ◌==ℤ◌}
use legacy_point_monitor.Common.Outcome.{Outcome, ok, fault, exited, out_of_fuel, ◌>>=◌}
use legacy_point_monitor.Store.HashTable.{Hash}
use legacy_point_monitor.Store.HashTable.Direct.{
  insert-direct, delete-direct, size-insert, size-delete,
}
use legacy_point_monitor.Threads.State.{
  thd_error, Function, pending, ThreadInfo, Library, thread_at, finished, lock_store,
}
use legacy_point_monitor.Threads.Signals.{
  SignalCalls, above_max, th_install_signal_handler, th_uninstall_signal_handler, delete_handler,
}
use legacy_point_monitor.Threads.Dispatch.{Refuses, TableFits, IsSignal_of, handlers_or_new-fit}
use legacy_point_monitor.Threads.Name.{set_thread_name, thread_name_size}
use legacy_point_monitor.Threads.NameBytes.{set_thread_name-IsName}
use legacy_point_monitor.Threads.Api.{
  InitCalls, selfpipe_init, install_if, thread_init, init_once, ExecuteCalls, get_next_handle,
  execute_at, store_created, th_execute, exit_at, th_exit, sigquit, sigint, sigquit_handler,
  sigint_handler,
}
use legacy_point_monitor.Threads.Table.{
  Fits, IsRecord, Stores-some, put-Fits, at-Stores, frame-Fits, state-IsRecord,
}

-- The library after a call that also answers something.
abbrev pub after {ℓ} : {A : Type ℓ} → Outcome (A × Library) → Outcome Library
after o = o >>= (λ r. ok r.1)

-- The call returns with well-formed tables, or it ends the program by exit(THD_ERROR).
abbrev pub Returns : Outcome Library → Type 0
Returns (ok lib) = Fits lib
Returns (exited status) = status ≡ thd_error
Returns fault = ⊥
Returns out_of_fuel = ⊥

Returns-bind :
    (o : Outcome Library) (next : Library → Outcome Library)
    → Returns o
    → ((lib : Library) → Fits lib → Returns (next lib))
    → Returns (o >>= next)
Returns-bind (ok lib) next r rest = rest lib r
Returns-bind (exited status) next r rest = r
Returns-bind fault next r rest = r
Returns-bind out_of_fuel next r rest = r

bind_after :
    {A : Type 0} (o : Outcome Library) (next : Library → A × Library)
    → Returns o
    → ((lib : Library) → Fits lib → Fits (next lib).1)
    → Returns (after (o >>= (λ lib. ok (next lib))))
bind_after (ok lib) next r rest = rest lib r
bind_after (exited status) next r rest = r
bind_after fault next r rest = r
bind_after out_of_fuel next r rest = r

module _ (os : SignalCalls) (refuses : Refuses os) (s : ℤ) {lib : Library} (fits : Fits lib) where
  pub install-Returns : (f : Function) → Returns (after (th_install_signal_handler os s f lib))
  unfolding th_install_signal_handler
  install-Returns f =
      let P = λ (o : Outcome (Bool × Library)). Returns (after o) in
      by_test P (above_max s) fits λ low.
        by_test P (os.sigemptyset_fails || os.sigaddset_fails s) fits λ set.
          by_test P (os.sigprocmask_fails s) fits λ mask.
            by_test P (os.sigaction_fails s) fits λ action.
              let (direct, size) = handlers_or_new-fit lib.signal_handlers fits.callbacks in
              let (h', run, direct', reads) =
                insert-direct direct s (IsSignal_of os s refuses low set) f 8 in
              rw run (with_callbacks (direct', size-insert _ h' s f 8 run ∙ size))
    where
      with_callbacks :
          {h : Hash Function} → TableFits (some h) → Fits (record lib { signal_handlers = some h })
      with_callbacks table = record { full = fits.full; owned = fits.owned; callbacks = table }

  delete-Returns :
      (o : Option (Hash Function))
      → TableFits o
      → above_max s ≡ false
      → (os.sigemptyset_fails || os.sigaddset_fails s) ≡ false
      → Returns (after (delete_handler o s lib))
  unfolding delete_handler
  delete-Returns none table low set = fits
  delete-Returns (some h) (direct, size) low set =
      let (h', run, direct', reads) = delete-direct direct s (IsSignal_of os s refuses low set) in
      rw run (record {
        full = fits.full;
        owned = fits.owned;
        callbacks = (direct', size-delete h h' s _ run ∙ size);
      })

  pub uninstall-Returns : Returns (after (th_uninstall_signal_handler os s lib))
  unfolding th_uninstall_signal_handler
  uninstall-Returns =
      let P = λ (o : Outcome (Bool × Library)). Returns (after o) in
      by_test P (above_max s) fits λ low.
        by_test P (os.sigemptyset_fails || os.sigaddset_fails s) fits λ set.
          by_test P (os.sigprocmask_fails s) fits
            λ mask. delete-Returns lib.signal_handlers fits.callbacks low set

module _ (c : InitCalls) (refuses : Refuses c.signals) where
  selfpipe-Returns : {lib : Library} → Fits lib → Returns (selfpipe_init c lib)
  unfolding selfpipe_init
  selfpipe-Returns fits = by_test Returns c.pipe_fails refl λ p.
      by_test Returns c.get_flags_fails refl
        λ g. by_test Returns c.set_flags_fails refl λ s. frame-Fits refl refl fits

  install_if-Returns :
      (b : Bool) (s : ℤ) (f : Function) {lib : Library}
      → Fits lib
      → Returns (install_if b c.signals s f lib)
  unfolding install_if
  install_if-Returns true s f fits = install-Returns c.signals refuses s fits f
  install_if-Returns false s f fits = fits

  thread_init-Returns : {lib : Library} → Fits lib → Returns (thread_init c lib)
  unfolding thread_init
  thread_init-Returns {lib} fits =
      Returns-bind (selfpipe_init c lib) _ (selfpipe-Returns fits) λ l1 f1.
        Returns-bind (if c.create_fails then exited thd_error else ok l1) _
          (by_test Returns c.create_fails refl λ e. f1)
          λ l2 f2.
            Returns-bind (install_if l2.handle_sig_quit c.signals sigquit sigquit_handler l2) _
              (install_if-Returns l2.handle_sig_quit sigquit sigquit_handler f2)
              λ l3 f3. install_if-Returns l3.handle_sig_int sigint sigint_handler f3

  init_once-Returns : {lib : Library} → Fits lib → Returns (init_once c lib)
  unfolding init_once
  init_once-Returns {lib} fits = by_test Returns lib.init_done fits λ fresh.
      Returns-bind (thread_init c lib) _ (thread_init-Returns fits) λ l f. frame-Fits refl refl f

pub new-IsRecord :
    (c : ExecuteCalls) (func : Function) (handle : ℤ) (p : ℕ)
    → func ≢ 0
    → IsRecord handle (record {
      pthread = p;
      lock = 0;
      handle = handle;
      state = pending;
      name = set_thread_name c.rand thread_name_size;
      func = func;
    })
new-IsRecord c func handle p given = record {
  own_handle = refl;
  unlocked = refl;
  named = (set_thread_name-IsName c.rand).0;
  runs = given;
}

module _ (c : ExecuteCalls) (func : Function) (given : func ≢ 0) (handle : ℤ) {lib : Library}
    (fits : Fits lib) where
  created-Fits :
      (created : Option ℕ) (t : ThreadInfo)
      → ((p : ℕ) → IsRecord handle (record t { pthread = p }))
      → Fits (store_created created handle t (lock_store lib)).1
  unfolding store_created
  created-Fits none t r = frame-Fits refl refl fits
  created-Fits (some p) t r = frame-Fits refl refl (
      put-Fits handle _ {lib = lock_store lib} (frame-Fits refl refl fits)
        (Stores-some handle _ (r p)))

  execute_at-Fits : Fits (execute_at c func handle lib).1
  unfolding execute_at
  execute_at-Fits =
      by_test (λ (r : ℤ × Library). Fits r.1) c.malloc_fails (frame-Fits refl refl fits)
        λ memory. created-Fits c.create _ (λ p. new-IsRecord c func handle p given)

pub execute-Returns :
    (c : ExecuteCalls) (func : Function) {lib : Library}
    → Refuses c.init.signals
    → Fits lib
    → Returns (after (th_execute c func lib))
unfolding th_execute
execute-Returns c func {lib} refuses fits =
    let P = λ (r : ℤ × Library). Fits r.1 in
    bind_after (init_once c.init lib) _ (init_once-Returns c.init refuses fits) λ l f.
      by_test P (func == 0) f λ given.
        by_test P (get_next_handle l ==ℤ thd_error) f
          λ free. execute_at-Fits c func (ne_of_beq func 0 given) (get_next_handle l) f

pub exit-Returns :
    (th : ℤ) (t : ThreadInfo) {lib : Library}
    → thread_at th lib ≡ some t
    → Fits lib
    → Returns (th_exit th lib)
unfolding th_exit exit_at
exit-Returns th t {lib} here fits = rw here (
    put-Fits th _ fits (Stores-some th _ (state-IsRecord th finished t (at-Stores th fits t here))))
