-- ===== src/Threads/Dispatch.antt =====
-- Signals: the table of callbacks is direct, so handlers are installed, found and removed soundly, and
-- the pipe carries a signal number to the manager thread unchanged.
use legacy_point_monitor.Common.{
  ℕ, zero, suc, ◌%◌, ◌^◌, ◌≤◌, ◌≡◌, refl, sym, ap, ◌∙◌, Bool, true, false, ◌||◌, Option, none, some,
  List, [], ◌∷◌, arith, if◌then◌else◌, ltb, get_or, replicate, get_or-replicate, length-replicate,
  Bool-cases, inl, inr,
}
use legacy_point_monitor.Common.Int.{ℤ, pos, negsuc, ◌==ℤ◌, to_u32}
use legacy_point_monitor.Common.Outcome.{Outcome, ok, ◌>>=◌}
use legacy_point_monitor.Store.HashTable.{HashNode, Hash, new_hash, get_hash_index, get_hash_item}
use legacy_point_monitor.Store.HashTable.Direct.{
  IsDirect, insert-direct, delete-direct, size-insert, size-delete,
}
use legacy_point_monitor.Threads.State.{Function, Library}
use legacy_point_monitor.Threads.Signals.{
  max_signal, SignalCalls, above_max, handlers_or_new, th_install_signal_handler,
  th_uninstall_signal_handler, delete_handler, written, thread_signal_handler, sent, short_of_char,
  Dispatched, pipe_closed, unexpected, invoked, invoke, mgr_round, dispatch_number,
}

-- The signals that the library can handle: 1 to 15.
abbrev pub IsSignal : ℤ → Type 0
IsSignal (pos n) = (1 ≤ n) × (n ≤ max_signal)
IsSignal (negsuc n) = ⊥

-- sigaddset refuses numbers that are no signals.
abbrev pub Refuses : SignalCalls → Type 0
Refuses os = ((n : ℕ) → os.sigaddset_fails (negsuc n) ≡ true) × (os.sigaddset_fails (pos 0) ≡ true)

-- The table of callbacks, if there is one, has 15 slots, and each node stands at its own index.
abbrev pub TableFits : Option (Hash Function) → Type 0
TableFits none = Unit
TableFits (some h) = IsDirect IsSignal h × (h.size ≡ max_signal)

abbrev pub HandlersFit : Library → Type 0
HandlersFit lib = TableFits lib.signal_handlers

signals_apart :
    (h : Hash Function)
    → h.size ≡ max_signal
    → (a b : ℤ) → IsSignal a
    → IsSignal b
    → get_hash_index h a ≡ get_hash_index h b
    → a ≡ b
unfolding get_hash_index to_u32
signals_apart h size (pos a) (pos b) (la, ha) (lb, hb) e =
    let e' : a % 2 ^ 32 % 15 ≡ b % 2 ^ 32 % 15 = rw size at e in ap pos (omega arith)
signals_apart h size (pos a) (negsuc b) p q e = absurd q
signals_apart h size (negsuc a) b p q e = absurd p

pub handlers_or_new-fit :
    (o : Option (Hash Function)) → TableFits o → TableFits (some (handlers_or_new o))
unfolding new_hash
handlers_or_new-fit (some h) t = t
handlers_or_new-fit none t = (
  record {
    nonempty = omega arith;
    width = length-replicate {A = Option (HashNode Function)} max_signal none;
    home = λ i n e. absurd (empty i n e);
    allowed = λ i n e. absurd (empty i n e);
    apart = signals_apart (new_hash max_signal) refl;
  },
  refl,
)
  where
    empty : (i : ℕ) (n : HashNode Function) → get_or (replicate max_signal none) i none ≡ some n → ⊥
    empty i n e = let blank : none ≡ some n = sym (get_or-replicate max_signal i none) ∙ e in cc

-- A signal on its way: the generic handler writes to the empty pipe, and the manager thread does a
-- round on the byte that it reads.
abbrev pub round_on : Library → List ℕ → Outcome Dispatched
round_on lib [] = ok pipe_closed
round_on lib (byte ∷ rest) = mgr_round lib byte

abbrev pub deliver : Library → ℤ → Outcome Dispatched
deliver lib q = thread_signal_handler written q [] >>= round_on lib

-- The number arrives unchanged.
pub deliver-number :
    (lib : Library) (q : ℤ) → IsSignal q → deliver lib q ≡ dispatch_number lib.signal_handlers q
unfolding thread_signal_handler sent mgr_round short_of_char to_u32
deliver-number lib (negsuc n) p = absurd p
deliver-number lib (pos n) (lo, hi) =
    let low : ltb max_signal n ≡ false = ground arith in
    let byte : n % 2 ^ 32 % 2 ^ 8 ≡ n = omega arith in
    let plain : ltb n (2 ^ 7) ≡ true = ground arith in rw (low, byte, plain) refl

-- The library with a table in place, an empty one if there was none.
abbrev pub with_table : Library → Library
with_table lib = record lib { signal_handlers = some (handlers_or_new lib.signal_handlers) }

pub IsSignal_of :
    (os : SignalCalls) (s : ℤ)
    → Refuses os
    → above_max s ≡ false
    → (os.sigemptyset_fails || os.sigaddset_fails s) ≡ false
    → IsSignal s
IsSignal_of os (pos zero) r max set = ground (arith, r.1)
IsSignal_of os (pos (suc n)) r max set = ground arith
IsSignal_of os (negsuc n) r max set = ground (arith, r.0 n)

IsSignal-max : (s : ℤ) → IsSignal s → above_max s ≡ false
IsSignal-max (pos n) p = ground arith
IsSignal-max (negsuc n) p = refl

-- What a round does with the node found in the table.
abbrev dispatched : Outcome (Option (HashNode Function)) → Outcome Dispatched
dispatched o = o >>= (λ node. ok (invoke node))

-- The table `h` with `s` bound to `f`, for every signal.
abbrev pub Binds : Library → Library → ℤ → Dispatched → Type 0
Binds lib lib' s d =
    (q : ℤ) → IsSignal q → deliver lib' q ≡ (if s ==ℤ q then ok d else deliver lib q)

abbrev pub Installs : SignalCalls → ℤ → Function → Library → Type 0
Installs os s f lib =
    (lib' : Library) × (th_install_signal_handler os s f lib ≡ ok (true, lib'))
    × HandlersFit lib'
    × Binds (with_table lib) lib' s (invoked f)

abbrev pub Uninstalls : SignalCalls → ℤ → Library → Type 0
Uninstalls os s lib =
    (lib' : Library) × (th_uninstall_signal_handler os s lib ≡ ok (true, lib'))
    × HandlersFit lib'
    × Binds lib lib' s unexpected

-- No call for the signal fails.
abbrev pub Works : SignalCalls → ℤ → Type 0
Works os s =
    (os.sigemptyset_fails ≡ false)
    × (os.sigaddset_fails s ≡ false)
    × (os.sigprocmask_fails s ≡ false)
    × (os.sigaction_fails s ≡ false)

bind-table :
    (h h' : Hash Function) (lib : Library) (s : ℤ) (c : Option (HashNode Function))
    → lib.signal_handlers ≡ some h
    → ((q : ℤ) → IsSignal q → get_hash_item h' q ≡ (if s ==ℤ q then ok c else get_hash_item h q))
    → Binds lib (record lib { signal_handlers = some h' }) s (invoke c)
unfolding dispatch_number
bind-table h h' lib s c table reads q p =
    let old = deliver-number lib q p ∙ ap (λ o. dispatch_number o q) table in
    deliver-number (record lib { signal_handlers = some h' }) q p
    ∙ ap dispatched (reads q p)
    ∙ choose (s ==ℤ q) (sym old)
  where
    choose :
        (b : Bool)
        → dispatched (get_hash_item h q) ≡ deliver lib q
        → dispatched (if b then ok c else get_hash_item h q)
          ≡ (if b then ok (invoke c) else deliver lib q)
    choose true e = refl
    choose false e = e

-- On a well-formed table of callbacks, where no call fails, th_install_signal_handler for a signal
-- from 1 to 15 returns true; from then on the signal, written to the pipe and read back by the
-- manager thread, reaches the new handler, and every other signal the handler that it reached
-- before.
pub install-Binds :
    (os : SignalCalls) (s : ℤ) (f : Function) (lib : Library)
    → HandlersFit lib
    → IsSignal s
    → Works os s
    → Installs os s f lib
unfolding th_install_signal_handler
install-Binds os s f lib fit p (empty, add, mask, action) =
    let (direct, size) = handlers_or_new-fit lib.signal_handlers fit in
    let (h', run, direct', reads) = insert-direct direct s p f 8 in
    (
      record lib { signal_handlers = some h' },
      rw (IsSignal-max s p, empty, add, mask, action, run) refl,
      (direct', size-insert _ h' s f 8 run ∙ size),
      bind-table (handlers_or_new lib.signal_handlers) h' (with_table lib) s _ refl reads,
    )

-- With a handler table in place and no failing call, th_uninstall_signal_handler returns true, and
-- from then on the signal reaches no handler and every other one the handler that it reached before.
pub uninstall-Binds :
    (os : SignalCalls) (s : ℤ) (h : Hash Function) (lib : Library)
    → HandlersFit lib
    → lib.signal_handlers ≡ some h
    → IsSignal s
    → Works os s
    → Uninstalls os s lib
unfolding th_uninstall_signal_handler delete_handler
uninstall-Binds os s h lib fit table p (empty, add, mask, action) =
    let (direct, size) : TableFits (some h) = rw table at fit in
    let (h', run, direct', reads) = delete-direct direct s p in
    (
      record lib { signal_handlers = some h' },
      rw (IsSignal-max s p, empty, add, mask)
          (ap (λ o. delete_handler o s lib) table ∙ rw run refl),
      (direct', size-delete h h' s _ run ∙ size),
      bind-table h h' lib s none table reads,
    )

-- Whatever the calls answer, th_install_signal_handler returns: it keeps the table of callbacks well
-- formed, and where it returns false it changes nothing.
pub install-HandlersFit :
    (os : SignalCalls) (s : ℤ) (f : Function) (lib : Library)
    → Refuses os
    → HandlersFit lib
    → (b : Bool) × (lib' : Library) × (th_install_signal_handler os s f lib ≡ ok (b, lib'))
      × HandlersFit lib'
      × (b ≡ false → lib' ≡ lib)
unfolding th_install_signal_handler
install-HandlersFit os s f lib r fit = elim (Bool-cases (above_max s)) [
  | inl high ↦ (false, lib, rw high refl, fit, λ e. refl)
  | inr low ↦ elim (Bool-cases (os.sigemptyset_fails || os.sigaddset_fails s)) [
    | inl set ↦ (false, lib, rw (low, set) refl, fit, λ e. refl)
    | inr set ↦ elim (Bool-cases (os.sigprocmask_fails s)) [
      | inl mask ↦ (false, lib, rw (low, set, mask) refl, fit, λ e. refl)
      | inr mask ↦ elim (Bool-cases (os.sigaction_fails s)) [
        | inl action ↦ (false, lib, rw (low, set, mask, action) refl, fit, λ e. refl)
        | inr action ↦
            let (direct, size) = handlers_or_new-fit lib.signal_handlers fit in
            let (h', run, direct', reads) =
              insert-direct direct s (IsSignal_of os s r low set) f 8 in
            (
              true,
              record lib { signal_handlers = some h' },
              rw (low, set, mask, action, run) refl,
              (direct', size-insert _ h' s f 8 run ∙ size),
              λ e. cc,
            )
      ]
    ]
  ]
]
