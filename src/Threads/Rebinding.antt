-- ===== src/Threads/Rebinding.antt =====
-- Any sequence of calls that install and uninstall handlers: the table implements a map.
use legacy_point_monitor.Common.{
  ◌≡◌, refl, ap, ◌∙◌, ◌⊎◌, inl, inr, Bool, true, false, ◌||◌, Option, none, some, List, [], ◌∷◌,
  if◌then◌else◌, by_test,
}
use legacy_point_monitor.Common.Int.{ℤ, ◌==ℤ◌}
use legacy_point_monitor.Common.Outcome.{Outcome, ok, ◌>>=◌}
use legacy_point_monitor.Threads.State.{Function, Library}
use legacy_point_monitor.Threads.Signals.{
  SignalCalls, above_max, th_install_signal_handler, th_uninstall_signal_handler, delete_handler,
  unexpected, dispatch_number,
}
use legacy_point_monitor.Threads.Dispatch.{
  IsSignal, Refuses, deliver, deliver-number, Works, install-Binds, uninstall-Binds, IsSignal_of,
}
use legacy_point_monitor.Threads.Bindings.{
  table-deliver, Bindings, led, rebound, Change, install, uninstall, answers, change, changed,
  Refines, with_table-leads,
}

neither : (a b : Bool) → (a || b) ≡ false → (a ≡ false) × (b ≡ false)
neither true b e = cc
neither false b e = (refl, e)

-- th_install_signal_handler changes nothing, or nothing fails.
install_cases :
    (os : SignalCalls) (s : ℤ) (f : Function) (lib : Library)
    → Refuses os
    → (th_install_signal_handler os s f lib ≡ ok (false, lib)) ⊎ (IsSignal s × Works os s)
unfolding th_install_signal_handler
install_cases os s f lib r =
    let P = λ (o : Outcome (Bool × Library)). (o ≡ ok (false, lib)) ⊎ (IsSignal s × Works os s) in
    by_test P (above_max s) (inl refl) λ low.
      by_test P (os.sigemptyset_fails || os.sigaddset_fails s) (inl refl) λ set.
        by_test P (os.sigprocmask_fails s) (inl refl) λ mask.
          by_test P (os.sigaction_fails s) (inl refl) λ action. inr (
            let (empty, add) = neither os.sigemptyset_fails (os.sigaddset_fails s) set in
            (IsSignal_of os s r low set, (empty, add, mask, action)))

pub install-Refines :
    (os : SignalCalls) (s : ℤ) (f : Function) (lib : Library) (b : Bindings)
    → Refines lib b
    → IsSignal s
    → Works os s
    → (lib' : Library) × (th_install_signal_handler os s f lib ≡ ok (true, lib'))
      × Refines lib' (some (rebound b s (some f)))
install-Refines os s f lib b r sig works =
    let (lib', run, fits, binds) = install-Binds os s f lib r.fits sig works in
    let reads : (q : ℤ) → IsSignal q → deliver lib' q ≡ ok (led (rebound b s (some f) q)) =
      λ q p. binds q p ∙ with_table-leads lib b s (some f) q r p in
    (
      lib',
      run,
      record { fits = fits; table = table-deliver lib' s _ sig (reads s sig); reads = reads },
    )

-- th_uninstall_signal_handler does not call sigaction.
abbrev pub without_action : SignalCalls → SignalCalls
without_action os = record os { sigaction_fails = λ s. false }

uninstall_cases :
    (os : SignalCalls) (s : ℤ) (lib : Library)
    → Refuses os
    → (th_uninstall_signal_handler os s lib ≡ ok (false, lib))
      ⊎ (IsSignal s × Works (without_action os) s)
unfolding th_uninstall_signal_handler
uninstall_cases os s lib r =
    let P = λ (o : Outcome (Bool × Library)).
      (o ≡ ok (false, lib)) ⊎ (IsSignal s × Works (without_action os) s) in
    by_test P (above_max s) (inl refl) λ low.
      by_test P (os.sigemptyset_fails || os.sigaddset_fails s) (inl refl) λ set.
        by_test P (os.sigprocmask_fails s) (inl refl) λ mask.
          let (empty, add) = neither os.sigemptyset_fails (os.sigaddset_fails s) set in
          inr (IsSignal_of os s r low set, (empty, add, mask, refl))

uninstall-none :
    (os : SignalCalls) (s : ℤ) (lib : Library)
    → lib.signal_handlers ≡ none
    → th_uninstall_signal_handler os s lib ≡ ok (false, lib)
unfolding th_uninstall_signal_handler delete_handler
uninstall-none os s lib e =
    let P = λ (o : Outcome (Bool × Library)). o ≡ ok (false, lib) in
    by_test P (above_max s) refl λ low.
      by_test P (os.sigemptyset_fails || os.sigaddset_fails s) refl
        λ set. by_test P (os.sigprocmask_fails s) refl λ mask. ap (λ o. delete_handler o s lib) e

pub uninstall-Refines :
    (os : SignalCalls) (s : ℤ) (lib : Library) (m : ℤ → Option Function)
    → Refines lib (some m)
    → IsSignal s
    → Works (without_action os) s
    → (lib' : Library) × (th_uninstall_signal_handler os s lib ≡ ok (true, lib'))
      × Refines lib' (some (rebound (some m) s none))
unfolding th_uninstall_signal_handler
uninstall-Refines os s lib m r sig works =
    let (lib', run, fits, binds) =
      uninstall-Binds (without_action os) s r.table.0 lib r.fits r.table.1 sig works in
    let reads : (q : ℤ) → IsSignal q → deliver lib' q ≡ ok (led (rebound (some m) s none q)) =
      λ q p. binds q p ∙ choose (s ==ℤ q) q (r.reads q p) in
    (
      lib',
      run,
      record { fits = fits; table = table-deliver lib' s _ sig (reads s sig); reads = reads },
    )
  where
    choose :
        (b : Bool) (q : ℤ)
        → deliver lib q ≡ ok (led (m q))
        → (if b then ok unexpected else deliver lib q) ≡ ok (led (if b then none else m q))
    choose true q e = refl
    choose false q e = e

-- A call returns; where it returns true, the library stands for the changed map, else it is as it was.
abbrev pub Implements : Change → Library → Bindings → Type 0
Implements c lib b =
    (r : Bool × Library) × (change c lib ≡ ok r)
    × Refines r.1 (if r.0 then changed c b else b)
    × (r.0 ≡ false → r.1 ≡ lib)

change-Implements :
    (c : Change) (lib : Library) (b : Bindings)
    → Refuses (answers c)
    → Refines lib b
    → Implements c lib b
unfolding change
change-Implements (install os s f) lib b refuses r = elim (install_cases os s f lib refuses) [
  | inl kept ↦ ((false, lib), kept, r, λ e. refl)
  | inr (sig, works) ↦
      let (lib', run, r') = install-Refines os s f lib b r sig works in
      ((true, lib'), run, r', λ e. cc)
]
change-Implements (uninstall os s) lib none refuses r =
    ((false, lib), uninstall-none os s lib r.table, r, λ e. refl)
change-Implements (uninstall os s) lib (some m) refuses r =
    elim (uninstall_cases os s lib refuses) [
      | inl kept ↦ ((false, lib), kept, r, λ e. refl)
      | inr (sig, works) ↦
          let (lib', run, r') = uninstall-Refines os s lib m r sig works in
          ((true, lib'), run, r', λ e. cc)
    ]

-- The calls in order, with what they return.
pub change_all : List Change → Library → Outcome (List Bool × Library)
change_all [] lib = ok ([], lib)
change_all (c ∷ changes) lib = do
  r ← change c lib
  rest ← change_all changes r.1
  ok (r.0 ∷ rest.0, rest.1)

-- The map after the calls that returned true.
pub changed_all : List Change → List Bool → Bindings → Bindings
changed_all [] done b = b
changed_all (c ∷ changes) [] b = b
changed_all (c ∷ changes) (true ∷ done) b = changed_all changes done (changed c b)
changed_all (c ∷ changes) (false ∷ done) b = changed_all changes done b

abbrev pub AllRefuse : List Change → Type 0
AllRefuse [] = Unit
AllRefuse (c ∷ changes) = Refuses (answers c) × AllRefuse changes

-- Where sigaddset refuses numbers below 1 and whatever else the calls answer, every sequence of
-- calls of th_install_signal_handler and th_uninstall_signal_handler returns, and the table stands
-- for the map that those that returned true make of the map that it stood for: after each such
-- sequence every signal from 1 to 15 that goes through the pipe leads to where the map says.
pub change_all-Refines :
    (changes : List Change) (lib : Library) (b : Bindings)
    → AllRefuse changes
    → Refines lib b
    → (r : List Bool × Library) × (change_all changes lib ≡ ok r)
      × Refines r.1 (changed_all changes r.0 b)
unfolding change_all changed_all
change_all-Refines [] lib b refuse r = (([], lib), refl, r)
change_all-Refines (c ∷ changes) lib b (refuses, refuse) r =
    let (one, run, now, kept) = change-Implements c lib b refuses r in
    let (rest, ran, later) = change_all-Refines changes one.1 _ refuse now in
    ((one.0 ∷ rest.0, rest.1), rw (run, ran) refl, step one.0 rest.0 later)
  where
    step :
        {lib' : Library} (d : Bool) (done : List Bool)
        → Refines lib' (changed_all changes done (if d then changed c b else b))
        → Refines lib' (changed_all (c ∷ changes) (d ∷ done) b)
    step true done r' = r'
    step false done r' = r'

-- Before the first handler there is no map.
pub none-Refines : (lib : Library) → lib.signal_handlers ≡ none → Refines lib none
unfolding dispatch_number
none-Refines lib e = record {
  fits = rw e tt;
  table = e;
  reads = λ q p. deliver-number lib q p ∙ ap (λ o. dispatch_number o q) e;
}
