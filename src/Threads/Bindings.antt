-- ===== src/Threads/Bindings.antt =====
-- What the table of callbacks stands for: a map from signals to functions, or nothing before the first
-- handler is installed.
use legacy_point_monitor.Common.{
  ◌≡◌, refl, sym, ap, ◌∙◌, inl, inr, Bool, Option, none, some, if◌then◌else◌, Bool-cases,
  Option-cases,
}
use legacy_point_monitor.Common.Int.{ℤ, ◌==ℤ◌}
use legacy_point_monitor.Common.Outcome.{Outcome, ok, fault, ◌>>=◌}
use legacy_point_monitor.Store.HashTable.{Hash}
use legacy_point_monitor.Store.HashTable.Table.{get-new_hash}
use legacy_point_monitor.Threads.State.{Function, Library}
use legacy_point_monitor.Threads.Signals.{
  SignalCalls, th_install_signal_handler, th_uninstall_signal_handler, handlers_or_new, Dispatched,
  invoked, unexpected, invoke, dispatch_number,
}
use legacy_point_monitor.Threads.Dispatch.{
  IsSignal, HandlersFit, deliver, deliver-number, with_table,
}

-- none before the first handler.
abbrev pub Bindings : Type 0
Bindings = Option (ℤ → Option Function)

-- Where a signal leads that is written to the pipe.
abbrev pub led : Option Function → Dispatched
led none = unexpected
led (some f) = invoked f

abbrev pub leads : Bindings → ℤ → Outcome Dispatched
leads none q = fault
leads (some b) q = ok (led (b q))

abbrev pub rebound : Bindings → ℤ → Option Function → ℤ → Option Function
rebound none s c q = if s ==ℤ q then c else none
rebound (some b) s c q = if s ==ℤ q then c else b q

-- A call on the table, with the answers that it gets.
pub data Change : Type 0 where
  install : SignalCalls → ℤ → Function → Change
  uninstall : SignalCalls → ℤ → Change

abbrev pub answers : Change → SignalCalls
answers (install os s f) = os
answers (uninstall os s) = os

unfoldable pub change : Change → Library → Outcome (Bool × Library)
change (install os s f) lib = th_install_signal_handler os s f lib
change (uninstall os s) lib = th_uninstall_signal_handler os s lib

-- What a call that returns true does to the map.
abbrev pub changed : Change → Bindings → Bindings
changed (install os s f) b = some (rebound b s (some f))
changed (uninstall os s) none = none
changed (uninstall os s) (some b) = some (rebound (some b) s none)

-- The library stands for the map: there is a table exactly if there is a map, it is well formed, and
-- every signal that goes through the pipe leads to where the map says.
abbrev pub TableFor : Bindings → Library → Type 0
TableFor none lib = lib.signal_handlers ≡ none
TableFor (some b) lib = (h : Hash Function) × (lib.signal_handlers ≡ some h)

pub record Refines (lib : Library) (b : Bindings) : Type 0 where
  pub fits : HandlersFit lib
  pub table : TableFor b lib
  pub reads : (q : ℤ) → IsSignal q → deliver lib q ≡ leads b q

-- In a new table every signal is unexpected.
pub new-unexpected :
    (lib : Library) (q : ℤ)
    → lib.signal_handlers ≡ none
    → IsSignal q
    → deliver (with_table lib) q ≡ ok unexpected
unfolding dispatch_number
new-unexpected lib q empty sig =
    deliver-number (with_table lib) q sig
    ∙ ap (λ o. dispatch_number (some (handlers_or_new o)) q) empty
    ∙ ap (λ o. o >>= λ node. ok (invoke node)) (get-new_hash 14 q)

same-deliver :
    (lib : Library) (h : Hash Function) (q : ℤ)
    → lib.signal_handlers ≡ some h
    → IsSignal q
    → deliver (with_table lib) q ≡ deliver lib q
same-deliver lib h q e sig =
    deliver-number (with_table lib) q sig
    ∙ ap (λ o. dispatch_number (some (handlers_or_new o)) q) e
    ∙ sym (ap (λ o. dispatch_number o q) e)
    ∙ sym (deliver-number lib q sig)

-- A signal that leads somewhere shows that there is a table.
pub table-deliver :
    (lib : Library) (s : ℤ) (d : Dispatched)
    → IsSignal s
    → deliver lib s ≡ ok d
    → (h : Hash Function) × (lib.signal_handlers ≡ some h)
unfolding dispatch_number
table-deliver lib s d p bound = elim (Option-cases lib.signal_handlers) [
  | inl empty ↦
      let faults : deliver lib s ≡ fault =
        deliver-number lib s p ∙ ap (λ o. dispatch_number o s) empty in
      absurd cc
  | inr found ↦ found
]

-- So a new table would not take its place.
pub with_table-deliver :
    (lib : Library) (s : ℤ) (d : Dispatched)
    → IsSignal s
    → deliver lib s ≡ ok d
    → (q : ℤ) → IsSignal q
    → deliver (with_table lib) q ≡ deliver lib q
with_table-deliver lib s d p bound q sig =
    let (h, e) = table-deliver lib s d p bound in same-deliver lib h q e sig

-- A signal once the table is there.
pub with_table-leads :
    (lib : Library) (b : Bindings) (s : ℤ) (c : Option Function) (q : ℤ)
    → Refines lib b
    → IsSignal q
    → (if s ==ℤ q then ok (led c) else deliver (with_table lib) q) ≡ ok (led (rebound b s c q))
with_table-leads lib none s c q r sig = elim (Bool-cases (s ==ℤ q)) [
  | inl same ↦ rw same refl
  | inr other ↦ rw other (new-unexpected lib q r.table sig)
]
with_table-leads lib (some b) s c q r sig = elim (Bool-cases (s ==ℤ q)) [
  | inl same ↦ rw same refl
  | inr other ↦ rw other (same-deliver lib r.table.0 q r.table.1 sig ∙ r.reads q sig)
]
