-- ===== src/Tests/Signals.antt =====
-- Signals 2 and 3 with their handlers.
use legacy_point_monitor.Threads.Bindings.{Change, Refines}
use legacy_point_monitor.Threads.Rebinding.{
  change_all, changed_all, change_all-Refines, none-Refines,
}
use legacy_point_monitor.Common.{
  List, [], ◌∷◌, Bool, ◌∙◌, ℕ, ◌≡◌, refl, true, false, none, some, arith, ltb,
}
use legacy_point_monitor.Common.Int.{pos, negsuc, to_u32}
use legacy_point_monitor.Common.Outcome.{ok, ◌>>=◌}
use legacy_point_monitor.Store.HashTable.{
  Hash, new_hash, insert_hash_item, delete_hash_item, get_hash_item,
}
use legacy_point_monitor.Store.HashTable.Direct.{InsertsDirect, insert-direct, size-insert}
use legacy_point_monitor.Threads.State.{Library, initial}
use legacy_point_monitor.Threads.Signals.{
  SignalCalls, th_install_signal_handler, th_uninstall_signal_handler, invoked, unexpected,
  thread_signal_handler, mgr_round, short_of_char,
}
use legacy_point_monitor.Threads.Dispatch.{
  IsSignal, Refuses, HandlersFit, deliver, handlers_or_new-fit,
}

program : Unit {0}
unfolding th_install_signal_handler th_uninstall_signal_handler thread_signal_handler mgr_round
    short_of_char new_hash insert_hash_item delete_hash_item get_hash_item to_u32
program = tt

-- sigaddset as documented, and all else succeeds.
abbrev pub os : SignalCalls
os = record {
  sigemptyset_fails = false;
  sigaddset_fails = elim [ pos n ↦ ltb n 1 | negsuc n ↦ true ];
  sigprocmask_fails = λ s. false;
  sigaction_fails = λ s. false;
}

os-Refuses : Refuses os
os-Refuses = (λ n. refl, refl)

initial-Fit : HandlersFit initial
initial-Fit = tt

-- The new table with a handler for signal 1.
abbrev bound : InsertsDirect {V = ℕ} IsSignal (new_hash 15) (pos 1) 500 8
bound = insert-direct (handlers_or_new-fit none tt).0 (pos 1) (omega arith, omega arith) 500 8

abbrev table : Hash ℕ
table = bound.0

abbrev with_handler : Library
with_handler = record initial { signal_handlers = some table }

with_handler-Fit : HandlersFit with_handler
with_handler-Fit = (
  bound.2,
  size-insert (new_hash 15) table (pos 1) 500 8 bound.1 ∙ (handlers_or_new-fit none tt).1,
)

-- A handler is installed, and its signal raised; it is removed, and the signal raised again.
raised :
    (do
      a ← th_install_signal_handler os (pos 2) 500 initial
      b ← th_install_signal_handler os (pos 15) 501 a.1
      deliver b.1 (pos 15))
    ≡ ok (invoked 501)
unfolding program
raised = refl

removed :
    (do
      a ← th_install_signal_handler os (pos 15) 501 initial
      b ← th_uninstall_signal_handler os (pos 15) a.1
      deliver b.1 (pos 15))
    ≡ ok unexpected
unfolding program
removed = refl

-- A handler is installed, a number that is no signal is refused, and the handler is taken off.
abbrev changes : List Change
changes =
    Change.install os (pos 2) 7 ∷ Change.install os (pos 0) 8 ∷ Change.uninstall os (pos 2) ∷ []

change_all-Refines_example :
    (r : List Bool × Library) × (change_all changes initial ≡ ok r)
    × Refines r.1 (changed_all changes r.0 none)
change_all-Refines_example =
    change_all-Refines changes initial none (os-Refuses, (os-Refuses, (os-Refuses, tt)))
      (none-Refines initial refl)
