-- ===== src/Monitor/Signals.antt =====
-- The signals of src/bin/monitor_shm/monitor_shm.c: what main blocks and handles, and what becomes of
-- `Running`.
use legacy_point_monitor.Common.{
  ◌==◌, ◌≡◌, refl, ◌∙◌, Bool, true, false, not, ◌&&◌, ◌||◌, Option, none, some, List, [], ◌∷◌,
  if◌then◌else◌, Bool-cases, inl, inr, arith,
}
use legacy_point_monitor.Common.Int.{ℤ, pos, ◌==ℤ◌}
use legacy_point_monitor.Threads.State.{Function}
use legacy_point_monitor.Threads.Signals.{SignalCalls}
use legacy_point_monitor.Threads.Api.{sigint, sigquit}

-- `&signal_exit`
abbrev pub signal_exit : Function
signal_exit = 5

-- The signals that are blocked, and the handlers; none is the default action.
pub record Process : Type 0 where
  pub blocked : ℤ → Bool
  pub handlers : ℤ → Option Function
  pub running : Bool

abbrev pub at_signal {ℓ} : {A : Type ℓ} → (ℤ → A) → ℤ → A → ℤ → A
at_signal f signum a s = if signum ==ℤ s then a else f s

unfoldable pub install_signal_handler : SignalCalls → ℤ → Function → Process → Process
install_signal_handler os signum handler p =
    if os.sigemptyset_fails || os.sigaddset_fails signum
    then p
    else if os.sigprocmask_fails signum
    then p
    else (let open_now = record p { blocked = at_signal p.blocked signum false } in
        if os.sigaction_fails signum
        then open_now
        else record open_now { handlers = at_signal p.handlers signum (some handler) })

-- The signals that sigprocmask blocks after sigfillset: all but SIGKILL and SIGSTOP.
abbrev pub can_block : ℤ → Bool
can_block s = not (s ==ℤ pos 9) && not (s ==ℤ pos 19)

-- main, from sigfillset to the second install_signal_handler.
unfoldable pub set_signals : SignalCalls → Process → Process
unfolding install_signal_handler
set_signals os p =
    install_signal_handler os sigquit signal_exit
      (install_signal_handler os sigint signal_exit (record p { blocked = can_block }))

-- A signal stays pending, or its handler runs, or it has its default action.
pub data Received : Type 0 where
  pending : Received
  handled : Process → Received
  default_action : Received

-- The default action, or the handler: signal_exit clears `Running`.
abbrev run_handler : Option Function → Process → Received
run_handler none p = default_action
run_handler (some f) p = handled (if f == signal_exit then record p { running = false } else p)

unfoldable pub receive : ℤ → Process → Received
receive s p = if p.blocked s then pending else run_handler (p.handlers s) p

-- The process after the signals, none if one of them had its default action.
unfoldable pub receive_all : List ℤ → Process → Option Process
unfolding receive
receive_all [] p = some p
receive_all (s ∷ signals) p = elim (receive s p) [
  | pending ↦ receive_all signals p
  | handled p' ↦ receive_all signals p'
  | default_action ↦ none
]

abbrev pub is_exit : ℤ → Bool
is_exit s = sigint ==ℤ s || sigquit ==ℤ s

abbrev pub has_exit : List ℤ → Bool
has_exit [] = false
has_exit (s ∷ signals) = is_exit s || has_exit signals

-- No call fails for the two signals.
abbrev pub Succeeds : SignalCalls → Type 0
Succeeds os =
    (os.sigemptyset_fails ≡ false)
    × ((s : ℤ) → os.sigaddset_fails s ≡ false)
    × ((s : ℤ) → os.sigprocmask_fails s ≡ false)
    × ((s : ℤ) → os.sigaction_fails s ≡ false)

abbrev pub AllBlockable : List ℤ → Type 0
AllBlockable [] = Unit
AllBlockable (s ∷ signals) = (can_block s ≡ true) × AllBlockable signals

-- What main has set up.
abbrev pub prepared : Process → Process
prepared p = record {
  blocked = at_signal (at_signal can_block sigint false) sigquit false;
  handlers = at_signal (at_signal p.handlers sigint (some signal_exit)) sigquit (some signal_exit);
  running = p.running;
}

set_signals-prepared :
    (os : SignalCalls) (p : Process) → Succeeds os → set_signals os p ≡ prepared p
unfolding set_signals
set_signals-prepared os p (empty, add, mask, action) =
    rw (empty, add sigint, add sigquit, mask sigint, mask sigquit, action sigint, action sigquit)
      refl

-- The process with the two handlers set up, after one more signal.
abbrev with_signal : ℤ → Process → Process
with_signal s p = if is_exit s then record p { running = false } else p

receive-prepared :
    (s : ℤ) (signals : List ℤ) (p : Process)
    → can_block s ≡ true
    → receive_all (s ∷ signals) (prepared p) ≡ receive_all signals (prepared (with_signal s p))
unfolding receive_all
receive-prepared s signals p can = elim (Bool-cases (sigquit ==ℤ s)) [
  | inl quit ↦ elim (Bool-cases (sigint ==ℤ s)) [
    | inl int ↦ rw (quit, int) refl
    | inr other ↦ rw (quit, other) refl
  ]
  | inr other ↦ elim (Bool-cases (sigint ==ℤ s)) [
    | inl int ↦ rw (other, int) refl
    | inr none_of_them ↦ rw (other, none_of_them, can) refl
  ]
]

receive_all-running :
    (signals : List ℤ) (p : Process)
    → AllBlockable signals
    → (q : Process) × (receive_all signals (prepared p) ≡ some q)
      × (q.running ≡ (p.running && not (has_exit signals)))
unfolding receive_all
receive_all-running [] p can = (prepared p, refl, and-true p.running)
  where
    and-true : (b : Bool) → b ≡ (b && true)
    and-true true = refl
    and-true false = refl
receive_all-running (s ∷ signals) p (can, rest) =
    let (q, run, flag) = receive_all-running signals (with_signal s p) rest in
    (q, receive-prepared s signals p can ∙ run, flag ∙ after (is_exit s))
  where
    after :
        (b : Bool)
        → ((if b then record p { running = false } else p).running && not (has_exit signals))
          ≡ (p.running && not (b || has_exit signals))
    after true = ground arith
    after false = refl

-- Where the calls for the two signals succeed and whatever signals arrive that can be blocked, none
-- of them ends monitor_shm, and `Running` is true afterwards exactly if it was true before and
-- neither SIGINT nor SIGQUIT is among them.
pub signals-running :
    (os : SignalCalls) (signals : List ℤ) (p : Process)
    → Succeeds os
    → AllBlockable signals
    → (q : Process) × (receive_all signals (set_signals os p) ≡ some q)
      × (q.running ≡ (p.running && not (has_exit signals)))
signals-running os signals p works can =
    rw (set_signals-prepared os p works) (receive_all-running signals p can)
