-- ===== src/Threads/Wait.antt =====
-- th_wait and th_wait_all: what they answer, and that the table is purged.
use legacy_point_monitor.Common.{
  ℕ, zero, suc, ◌+◌, ◌<◌, ◌≡◌, ◌≢◌, refl, ap, ◌∙◌, Bool, true, false, Option, none, some, List, [],
  ◌∷◌, get_or, set, get_or-set_ne, arith, ltb, ℕ-cases, inl, inr,
}
use legacy_point_monitor.Common.Int.{pos}
use legacy_point_monitor.Threads.State.{
  max_threads, thd_ok, thd_error, ThreadState, pending, running, cancelled, finished, ThreadInfo,
  Library, th_valid_handle,
}
use legacy_point_monitor.Threads.Api.{Others, wait_at, joined, th_cleanup, th_wait, th_wait_all}
use legacy_point_monitor.Threads.All.{code_of, Answers, and_all-code, and_all-induction}

abbrev pub is_some {ℓ} : {A : Type ℓ} → Option A → Bool
is_some none = false
is_some (some _) = true

-- The library manages a thread under the handle `i`.
abbrev pub managed : Library → ℕ → Bool
managed lib i = is_some (get_or lib.threads i none)

-- While a thread waits in pthread_join, no other one takes a record out of the table or puts one in
-- (it calls neither th_execute nor th_wait), and each gives StoreLock back.
pub record Quiet (others : Others) : Type 0 where
  pub records : (p : ℕ) (lib : Library) (i : ℕ) → managed (others p lib) i ≡ managed lib i
  pub lock : (p : ℕ) (lib : Library) → (others p lib).store_lock ≡ lib.store_lock

get_or-set-none {ℓ} :
    {A : Type ℓ} (xs : List (Option A)) (i : ℕ) → get_or (set xs i none) i none ≡ none
get_or-set-none [] i = refl
get_or-set-none (x ∷ xs) zero = refl
get_or-set-none (x ∷ xs) (suc i) = get_or-set-none xs i

module _ {others : Others} (q : Quiet others) where
  joined-managed :
      (s : ThreadState) (p : ℕ) (lib : Library) (i : ℕ)
      → managed (joined others s p lib) i ≡ managed lib i
  unfolding joined
  joined-managed finished p lib i = refl
  joined-managed pending p lib i = q.records p _ i
  joined-managed running p lib i = q.records p _ i
  joined-managed cancelled p lib i = q.records p _ i

  wait_at-keeps :
      (i j : ℕ) (t : Option ThreadInfo) (lib : Library)
      → i ≢ j
      → managed (wait_at others (pos i) t lib).1 j ≡ managed lib j
  unfolding wait_at th_cleanup
  wait_at-keeps i j none lib ne = refl
  wait_at-keeps i j (some t) lib ne =
      ap is_some (get_or-set_ne _ i j none none ne) ∙ joined-managed t.state t.pthread lib j

  wait_at-purges :
      (i : ℕ) (t : Option ThreadInfo) (lib : Library)
      → get_or lib.threads i none ≡ t
      → managed (wait_at others (pos i) t lib).1 i ≡ false
  unfolding wait_at th_cleanup
  wait_at-purges i none lib e = ap is_some e
  wait_at-purges i (some t) lib e = ap is_some (get_or-set-none _ i)

  joined-lock :
      (s : ThreadState) (p : ℕ) (lib : Library)
      → (joined others s p lib).store_lock ≡ lib.store_lock
  unfolding joined
  joined-lock finished p lib = refl
  joined-lock pending p lib = q.lock p _
  joined-lock running p lib = q.lock p _
  joined-lock cancelled p lib = q.lock p _

  wait_at-lock :
      (i : ℕ) (t : Option ThreadInfo) (lib : Library)
      → (wait_at others (pos i) t lib).1.store_lock ≡ lib.store_lock
  unfolding wait_at th_cleanup
  wait_at-lock i none lib = refl
  wait_at-lock i (some t) lib = omega (arith, joined-lock t.state t.pthread lib)

  wait_at-code :
      (i : ℕ) (t : Option ThreadInfo) (lib : Library)
      → (wait_at others (pos i) t lib).0 ≡ code_of (is_some t)
  unfolding wait_at
  wait_at-code i none lib = refl
  wait_at-code i (some t) lib = refl

  -- On a valid handle th_wait answers THD_OK exactly if the library manages a thread under it. Either
  -- way nothing is managed under it afterwards, the other handles manage what they managed, and
  -- StoreLock is held as often as before.
  pub wait-purges :
      (i : ℕ) (lib : Library)
      → i < max_threads
      → ((th_wait others (pos i) lib).0 ≡ code_of (managed lib i))
        × (managed (th_wait others (pos i) lib).1 i ≡ false)
        × ((j : ℕ) → i ≢ j → managed (th_wait others (pos i) lib).1 j ≡ managed lib j)
        × ((th_wait others (pos i) lib).1.store_lock ≡ lib.store_lock)
  unfolding th_wait th_valid_handle
  wait-purges i lib lt =
      let t = get_or lib.threads i none in
      let valid : ltb i max_threads ≡ true = ground arith in
      rw valid (
        wait_at-code i t lib,
        wait_at-purges i t lib refl,
        λ j ne. wait_at-keeps i j t lib ne,
        wait_at-lock i t lib,
      )

  th_wait-Answers : Answers (th_wait others) managed
  th_wait-Answers = record {
    answer = λ i lib lt. (wait-purges i lib lt).0;
    keeps = λ i j lib lt ne. (wait-purges i lib lt).2 j ne;
  }

  -- What th_wait_all comes to: THD_OK if some thread was managed, THD_ERROR if none was; in both cases
  -- no thread is managed afterwards, and StoreLock is held as often as before.
  abbrev pub WaitsAll : Library → Type 0
  WaitsAll lib =
      ((i : ℕ) → i < max_threads → managed lib i ≡ true → (th_wait_all others lib).0 ≡ thd_ok)
      × (((i : ℕ) → i < max_threads → managed lib i ≡ false)
          → (th_wait_all others lib).0 ≡ thd_error)
      × ((i : ℕ) → i < max_threads → managed (th_wait_all others lib).1 i ≡ false)
      × ((th_wait_all others lib).1.store_lock ≡ lib.store_lock)

  abbrev PurgedBelow : Library → ℕ → Library → Type 0
  PurgedBelow start idx lib =
      ((j : ℕ) → j < idx → managed lib j ≡ false) × (lib.store_lock ≡ start.store_lock)

  purge_step :
      (start : Library) (i : ℕ) (lib : Library)
      → i < max_threads
      → PurgedBelow start i lib
      → PurgedBelow start (i + 1) (th_wait others (pos i) lib).1
  purge_step start i lib lt (below, lock) =
      let (code, gone, kept, same) = wait-purges i lib lt in
      (
        λ j below_next. elim (ℕ-cases i j) [
          | inl e ↦ rw (← e) gone
          | inr ne ↦ kept j ne ∙ below j (omega arith)
        ],
        same ∙ lock,
      )

  -- Where other threads neither take records out of the table nor put any in during a join, and
  -- give StoreLock back, th_wait_all answers THD_OK if some thread is managed and THD_ERROR if none
  -- is; afterwards none is managed, and StoreLock is held as often as before.
  pub wait_all-purges : (lib : Library) → WaitsAll lib
  unfolding th_wait_all
  wait_all-purges lib =
      let codes = and_all-code th_wait-Answers lib in
      let done =
        and_all-induction (PurgedBelow lib) (th_wait others) (purge_step lib) max_threads 0
          thd_error lib (omega arith) (λ j lt. elim lt [ ], refl) in
      (codes.0, codes.1, done.0, done.1)
