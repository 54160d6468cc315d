-- ===== src/Threads/Execute.antt =====
-- th_execute: which handle it gives, what it stores, and which mutexes it leaves held.
use legacy_point_monitor.Common.{
  ℕ, zero, suc, ◌+◌, ◌-◌, ◌<◌, ◌≡◌, ◌≢◌, refl, ap, ◌∙◌, true, false, Option, none, some, List, [],
  ◌∷◌, get_or, set, length, arith, if◌then◌else◌, beq_of_ne,
}
use legacy_point_monitor.Common.Int.{ℤ, pos, ◌==ℤ◌}
use legacy_point_monitor.Common.Outcome.{ok}
use legacy_point_monitor.Threads.State.{
  thd_error, Function, pending, ThreadInfo, Library, lock_store,
}
use legacy_point_monitor.Threads.Name.{set_thread_name, thread_name_size}
use legacy_point_monitor.Threads.Api.{
  first_free, get_next_handle, ExecuteCalls, init_once, execute_at, store_created, th_execute,
}
use legacy_point_monitor.Threads.Wait.{managed, is_some}

-- `i` is the first handle under which nothing is managed.
abbrev pub IsFirstFree : ℕ → Library → Type 0
IsFirstFree i lib =
    (i < length lib.threads) × (managed lib i ≡ false) × ((j : ℕ) → j < i → managed lib j ≡ true)

first_free-found :
    (idx i : ℕ) (threads : List (Option ThreadInfo))
    → i < length threads
    → is_some (get_or threads i none) ≡ false
    → ((j : ℕ) → j < i → is_some (get_or threads j none) ≡ true)
    → first_free idx threads ≡ pos (idx + i)
unfolding first_free
first_free-found idx i [] lt free taken = absurd (omega arith)
first_free-found idx zero (none ∷ threads) lt free taken = ap pos (omega arith)
first_free-found idx (suc i) (none ∷ threads) lt free taken = ground (arith, taken 0)
first_free-found idx zero (some t ∷ threads) lt free taken = cc
first_free-found idx (suc i) (some t ∷ threads) lt free taken =
    first_free-found (idx + 1) i threads (omega arith) free (λ j b. taken (suc j) (omega arith))
    ∙ ap pos (omega arith)

first_free-full :
    (idx : ℕ) (threads : List (Option ThreadInfo))
    → ((j : ℕ) → j < length threads → is_some (get_or threads j none) ≡ true)
    → first_free idx threads ≡ thd_error
unfolding first_free
first_free-full idx [] taken = refl
first_free-full idx (none ∷ threads) taken = ground (arith, taken 0)
first_free-full idx (some t ∷ threads) taken =
    first_free-full (idx + 1) threads (λ j b. taken (suc j) (omega arith))

next-handle : (i : ℕ) (lib : Library) → IsFirstFree i lib → get_next_handle lib ≡ pos i
unfolding get_next_handle
next-handle i lib (inside, free, taken) =
    first_free-found 0 i lib.threads inside free taken ∙ ap pos (omega arith)

-- The record that th_execute stores.
abbrev pub new_info : ExecuteCalls → Function → ℕ → ℕ → ThreadInfo
new_info c func i p = record {
  pthread = p;
  lock = 0;
  handle = pos i;
  state = pending;
  name = set_thread_name c.rand thread_name_size;
  func = func;
}

module _ (c : ExecuteCalls) (func : Function) (lib start : Library)
    (ready : init_once c.init lib ≡ ok start) (given : func ≢ 0) where
  execute-at :
      (h : ℤ)
      → get_next_handle start ≡ h
      → th_execute c func lib
        ≡ ok (if h ==ℤ thd_error then (h, start) else execute_at c func h start)
  unfolding th_execute
  execute-at h e = rw (ready, beq_of_ne func 0 given, e) refl

  -- After an initialisation that did not exit, with a function, a free handle, and neither malloc
  -- nor pthread_create failing, th_execute returns the first free handle, stores a PENDING record
  -- there and nothing else, and holds StoreLock as often as before.
  pub execute-stores :
      (i p : ℕ)
      → IsFirstFree i start
      → c.malloc_fails ≡ false
      → c.create ≡ some p
      → th_execute c func lib
        ≡ ok (pos i, record start { threads = set start.threads i (some (new_info c func i p)) })
  unfolding execute_at store_created
  execute-stores i p first memory created =
      let unlocked : start.store_lock + 1 - 1 ≡ start.store_lock = omega arith in
      execute-at (pos i) (next-handle i start first) ∙ rw (memory, created, unlocked) refl

  -- With every handle in use th_execute gives THD_ERROR and changes nothing.
  pub execute-full :
      ((j : ℕ) → j < length start.threads → managed start j ≡ true)
      → th_execute c func lib ≡ ok (thd_error, start)
  unfolding get_next_handle
  execute-full taken = execute-at thd_error (first_free-full 0 start.threads taken)

  -- When malloc fails, th_execute gives THD_ERROR, stores nothing and gives StoreLock back.
  pub execute-no_memory :
      (i : ℕ)
      → IsFirstFree i start
      → c.malloc_fails ≡ true
      → th_execute c func lib ≡ ok (thd_error, start)
  unfolding execute_at store_created
  execute-no_memory i first memory =
      let unlocked : start.store_lock + 1 - 1 ≡ start.store_lock = omega arith in
      execute-at (pos i) (next-handle i start first) ∙ rw (memory, unlocked) refl

  -- After an initialisation that did not exit, with a function, a free handle and memory, a failing
  -- pthread_create makes th_execute return THD_ERROR with nothing stored and StoreLock held once
  -- more than before.
  pub execute-leaks_lock :
      (i : ℕ)
      → IsFirstFree i start
      → c.malloc_fails ≡ false
      → c.create ≡ none
      → th_execute c func lib ≡ ok (thd_error, lock_store start)
  unfolding execute_at store_created
  execute-leaks_lock i first memory failed =
      execute-at (pos i) (next-handle i start first) ∙ rw (memory, failed) refl
