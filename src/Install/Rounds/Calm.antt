-- ===== src/Install/Rounds/Calm.antt =====
-- What other threads may do to the library while main waits, and that the functions that they call do no
-- more.
use legacy_point_monitor.Common.{
  ℕ, ◌≡◌, refl, ap, ◌∙◌, Option, none, some, get_or, get_or-set_ne, ℕ-cases, inl, inr, arith,
}
use legacy_point_monitor.Common.Int.{pos}
use legacy_point_monitor.Threads.State.{
  put_thread, thread_at, max_threads, thd_error, ThreadState, ThreadInfo, Library,
}
use legacy_point_monitor.Threads.Api.{set_state, th_kill, th_kill_all}
use legacy_point_monitor.Threads.All.{and_all-induction}
use legacy_point_monitor.Threads.Table.{
  Fits, Stores, Stores-none, state-IsRecord, Stores-some, put-Fits, kill_all-Fits,
}
use legacy_point_monitor.Threads.Wait.{managed, is_some}
use legacy_point_monitor.Threads.Kill.{get_or-set_map, kill-killed, kill_all-ends}

-- The other threads change neither which handles are managed nor how often main holds StoreLock, and
-- keep the tables well formed.
pub record Calm (f : Library → Library) : Type 0 where
  pub fits : (lib : Library) → Fits lib → Fits (f lib)
  pub records : (lib : Library) (i : ℕ) → managed (f lib) i ≡ managed lib i
  pub lock : (lib : Library) → (f lib).store_lock ≡ lib.store_lock
  pub init : (lib : Library) → (f lib).init_done ≡ lib.init_done

pub kill_all-frame :
    (lib : Library)
    → ((th_kill_all lib).1.store_lock ≡ lib.store_lock)
      × ((th_kill_all lib).1.init_done ≡ lib.init_done)
unfolding th_kill_all
kill_all-frame lib =
    and_all-induction
      (λ i (l : Library). (l.store_lock ≡ lib.store_lock) × (l.init_done ≡ lib.init_done)) th_kill
      (λ i l lt same. rw (kill-killed i l lt) same) max_threads 0 thd_error lib (omega arith)
      (refl, refl)

-- What graceful_exit does to the table.
pub kill_all-Calm : Calm (λ lib. (th_kill_all lib).1)
kill_all-Calm = record {
  fits = λ lib f. kill_all-Fits f;
  records = λ lib. (kill_all-ends lib).3;
  lock = λ lib. (kill_all-frame lib).0;
  init = λ lib. (kill_all-frame lib).1;
}

-- What a thread does that only changes the state of a record: func_decorator, and th_exit.
pub state-Calm :
    (n : ℕ) (st : ThreadState)
    → Calm (λ lib. put_thread (pos n) (set_state st (thread_at (pos n) lib)) lib)
unfolding set_state
state-Calm n st = record {
  fits = λ lib f. put-Fits (pos n) _ f (changed lib f (get_or lib.threads n none) refl);
  records = λ lib i. elim (ℕ-cases n i) [
    | inl same ↦ rw (← same) (
        ap is_some (get_or-set_map (set_state st) lib.threads n refl)
        ∙ kept (get_or lib.threads n none))
    | inr ne ↦ ap is_some (get_or-set_ne lib.threads n i _ none ne)
  ];
  lock = λ lib. refl;
  init = λ lib. refl;
}
  where
    kept : (t : Option ThreadInfo) → is_some (set_state st t) ≡ is_some t
    kept none = refl
    kept (some t) = refl

    changed :
        (lib : Library)
        → Fits lib
        → (o : Option ThreadInfo) → get_or lib.threads n none ≡ o
        → Stores (pos n) (set_state st o)
    changed lib f none e = Stores-none (pos n)
    changed lib f (some t) e = Stores-some (pos n) _ (state-IsRecord (pos n) st t (f.owned n t e))

-- One after the other.
pub Calm-then : {f g : Library → Library} → Calm f → Calm g → Calm (λ lib. g (f lib))
Calm-then {f} {g} a b = record {
  fits = λ lib k. b.fits (f lib) (a.fits lib k);
  records = λ lib i. b.records (f lib) i ∙ a.records lib i;
  lock = λ lib. b.lock (f lib) ∙ a.lock lib;
  init = λ lib. b.init (f lib) ∙ a.init lib;
}
