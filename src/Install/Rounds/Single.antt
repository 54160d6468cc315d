-- ===== src/Install/Rounds/Single.antt =====
-- One round of the loop of install_data on the table of threads.
use legacy_point_monitor.Common.{
  ℕ, get_or-set_ne, ◌<◌, ◌≡◌, refl, ap, ◌∙◌, true, false, Option, none, some, get_or, set,
  get_or-set_self, arith, by_test,
}
use legacy_point_monitor.Common.Int.{ℤ, pos}
use legacy_point_monitor.Common.Outcome.{ok}
use legacy_point_monitor.Threads.State.{
  max_threads, thd_ok, thd_error, ThreadState, pending, running, cancelled, finished, ThreadInfo,
  Library, th_valid_handle,
}
use legacy_point_monitor.Threads.Api.{
  init_once, th_execute, Others, joined, wait_at, th_cleanup, th_wait, th_wait_all, th_kill_all,
}
use legacy_point_monitor.Threads.All.{and_all-induction}
use legacy_point_monitor.Threads.Table.{Fits, Stores-some, put-Fits, kill_all-Fits, wait_all-Fits}
use legacy_point_monitor.Threads.Wait.{managed, is_some, wait_all-purges}
use legacy_point_monitor.Threads.Kill.{kill_all-ends}
use legacy_point_monitor.Threads.Execute.{new_info, execute-stores}
use legacy_point_monitor.Threads.Outcomes.{new-IsRecord}
use legacy_point_monitor.Install.Rounds.Calm.{Calm, kill_all-frame}
use legacy_point_monitor.Install.Rounds.{thread_entry_point, RoundCalls, Round, woken, round_of}

-- No thread is managed, and the library is initialised.
pub record Idle (lib : Library) : Type 0 where
  pub fits : Fits lib
  pub empty : (i : ℕ) → i < max_threads → managed lib i ≡ false
  pub init : lib.init_done ≡ true

pub record Proceeds (c : RoundCalls) : Type 0 where
  pub memory : c.execute.malloc_fails ≡ false
  pub created : (p : ℕ) × (c.execute.create ≡ some p)
  pub meanwhile : (f : Library → Library) → c.meanwhile ≡ some f → Calm f
  pub others : (p : ℕ) → Calm (c.others p)

module _ (others : Others) (calm : (p : ℕ) → Calm (others p)) where
  joined-init :
      (s : ThreadState) (p : ℕ) (lib : Library) → (joined others s p lib).init_done ≡ lib.init_done
  unfolding joined
  joined-init finished p lib = refl
  joined-init pending p lib = (calm p).init _
  joined-init running p lib = (calm p).init _
  joined-init cancelled p lib = (calm p).init _

  wait_at-init :
      (i : ℕ) (t : Option ThreadInfo) (lib : Library)
      → (wait_at others (pos i) t lib).1.init_done ≡ lib.init_done
  unfolding wait_at th_cleanup
  wait_at-init i none lib = refl
  wait_at-init i (some t) lib = joined-init t.state t.pthread lib

  wait-init : (i : ℕ) (lib : Library) → (th_wait others (pos i) lib).1.init_done ≡ lib.init_done
  unfolding th_wait
  wait-init i lib =
      by_test (λ (r : ℤ × Library). r.1.init_done ≡ lib.init_done) (th_valid_handle (pos i))
        (wait_at-init i (get_or lib.threads i none) lib) (λ e. refl)

  wait_all-init : (lib : Library) → (th_wait_all others lib).1.init_done ≡ lib.init_done
  unfolding th_wait_all
  wait_all-init lib =
      and_all-induction (λ i (l : Library). l.init_done ≡ lib.init_done) (th_wait others)
        (λ i l lt same. wait-init i l ∙ same) max_threads 0 thd_error lib (omega arith) refl

-- A round that main comes through: the worker had the handle 0, and th_wait_all answered THD_OK.
abbrev pub served : Round
served = record { handle = pos 0; answer = some thd_ok }

-- A round in which main waits for ever.
abbrev pub waiting : Round
waiting = record { handle = pos 0; answer = none }

-- The worker's record is the only one.
abbrev pub Alone : Library → Library → Type 0
Alone start lib =
    (managed lib 0 ≡ true)
    × ((j : ℕ) → 0 < j → j < max_threads → managed lib j ≡ false)
    × (lib.store_lock ≡ start.store_lock)

abbrev pub Cleared : Library → Library → Type 0
Cleared start lib = Idle lib × (lib.store_lock ≡ start.store_lock)

module _ (c : RoundCalls) (lib start : Library) (g : Proceeds c)
    (ready : init_once c.execute.init lib ≡ ok start) (idle : Idle start) where
  abbrev pub info : ThreadInfo
  info = new_info c.execute thread_entry_point 0 g.created.0

  abbrev pub executed : Library
  executed = record start { threads = set start.threads 0 (some info) }

  run : th_execute c.execute thread_entry_point lib ≡ ok (pos 0, executed)
  run =
      execute-stores c.execute thread_entry_point lib start ready (omega arith) 0 g.created.0
        (omega (arith, idle.fits.full), idle.empty 0 (omega arith), λ j lt. elim lt [ ]) g.memory
        g.created.1

  stored : managed executed 0 ≡ true
  stored =
      ap is_some (get_or-set_self start.threads 0 (some info) none (omega (arith, idle.fits.full)))

  executed-Fits : Fits executed
  executed-Fits = put-Fits (pos 0) (some info) idle.fits (
      Stores-some (pos 0) info
        (new-IsRecord c.execute thread_entry_point (pos 0) g.created.0 (omega arith)))

  pub round-waits :
      c.meanwhile ≡ none → (round_of c lib ≡ ok (waiting, executed)) × Alone start executed
  unfolding round_of woken
  round-waits blocks = (
    rw (run, blocks) refl,
    (
      stored,
      λ j pos_j lt.
          ap is_some (get_or-set_ne start.threads 0 j (some info) none (omega arith))
          ∙ idle.empty j lt,
      refl,
    ),
  )

  -- Where main is woken, it joins the worker.
  pub round-served :
      (f : Library → Library)
      → c.meanwhile ≡ some f
      → (lib' : Library) × (round_of c lib ≡ ok (served, lib')) × Cleared start lib'
  unfolding round_of woken
  round-served f wakes =
      let calm = g.meanwhile f wakes in
      let later = f executed in
      let killed = (th_kill_all later).1 in
      let same = (kill_all-ends later).3 in
      let (lock, init) = kill_all-frame later in
      let waited = th_wait_all c.others killed in
      let (answers, _, purged, unlocked) =
        wait_all-purges
          (record {
            records = λ q l i. (g.others q).records l i;
            lock = λ q l. (g.others q).lock l;
          })
          killed in
      let answer : waited.0 ≡ thd_ok =
        answers 0 (omega arith) (same 0 ∙ calm.records executed 0 ∙ stored) in
      (
        waited.1,
        rw (run, wakes)
            (ap (λ a. ok (record { handle = pos 0; answer = some a }, waited.1)) answer),
        (
          record {
            fits =
                wait_all-Fits (λ q l k. (g.others q).fits l k)
                  (kill_all-Fits (calm.fits executed executed-Fits));
            empty = purged;
            init = wait_all-init c.others g.others killed ∙ init ∙ calm.init executed ∙ idle.init;
          },
          unlocked ∙ lock ∙ calm.lock executed,
        ),
      )
