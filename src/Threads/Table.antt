-- ===== src/Threads/Table.antt =====
-- The table of threads and the table of callbacks together: what every call of the library keeps.
use legacy_point_monitor.Common.{
  ℕ, zero, suc, ◌+◌, ◌-◌, ◌≡◌, ◌≢◌, refl, sym, ap, ◌∙◌, ◌⊎◌, inl, inr, Option, none, some, List, [],
  ◌∷◌, get_or, set, length, length-set, length-replicate, get_or-replicate, arith, Bool-cases,
  eq_of_some,
}
use legacy_point_monitor.Common.Int.{ℤ, pos, negsuc}
use legacy_point_monitor.Threads.State.{
  max_threads, ThreadState, finished, cancelled, running, pending, ThreadInfo, Library, initial,
  put_thread, thread_at, th_valid_handle, lock_store, thd_error, cancel,
}
use legacy_point_monitor.Threads.NameBytes.{IsName}
use legacy_point_monitor.Threads.Dispatch.{HandlersFit}
use legacy_point_monitor.Threads.All.{and_all-induction}
use legacy_point_monitor.Threads.Api.{
  has_ended, kill_at, th_kill, func_decorator, set_state, th_cleanup, Others, joined, wait_at,
  th_wait, th_wait_all, th_kill_all,
}

-- The record of a thread with the handle `th`: its mutex is free, its name is one that th_execute
-- gives, and there is a function to run.
pub record IsRecord (th : ℤ) (t : ThreadInfo) : Type 0 where
  pub own_handle : t.handle ≡ th
  pub unlocked : t.lock ≡ 0
  pub named : IsName 7 t.name
  pub runs : t.func ≢ 0

-- The table has its 50 places, each record stands at its own handle, and the callbacks fit.
pub record Fits (lib : Library) : Type 0 where
  pub full : length lib.threads ≡ max_threads
  pub owned : (i : ℕ) (t : ThreadInfo) → get_or lib.threads i none ≡ some t → IsRecord (pos i) t
  pub callbacks : HandlersFit lib

pub initial-Fits : Fits initial
initial-Fits = record {
  full = length-replicate {A = Option ThreadInfo} max_threads none;
  owned = λ i t e. absurd (empty i t e);
  callbacks = tt;
}
  where
    empty : (i : ℕ) (t : ThreadInfo) → get_or initial.threads i none ≡ some t → ⊥
    empty i t e = let blank : none ≡ some t = sym (get_or-replicate max_threads i none) ∙ e in cc

get_or-set-cases {ℓ} :
    {A : Type ℓ} (xs : List (Option A)) (i j : ℕ) (o : Option A) (a : A)
    → get_or (set xs i o) j none ≡ some a
    → ((i ≡ j) × (o ≡ some a)) ⊎ (get_or xs j none ≡ some a)
get_or-set-cases [] i j o a e = inr e
get_or-set-cases (x ∷ xs) zero zero o a e = inl (refl, e)
get_or-set-cases (x ∷ xs) zero (suc j) o a e = inr e
get_or-set-cases (x ∷ xs) (suc i) zero o a e = inr e
get_or-set-cases (x ∷ xs) (suc i) (suc j) o a e = elim (get_or-set-cases xs i j o a e) [
  | inl (same, new) ↦ inl (ap suc same, new)
  | inr old ↦ inr old
]

-- Nothing, or a record for the handle.
abbrev pub Stores : ℤ → Option ThreadInfo → Type 0
Stores th o = (t : ThreadInfo) → o ≡ some t → IsRecord th t

pub Stores-none : (th : ℤ) → Stores th none
Stores-none th t e = absurd (let blank : none ≡ some t = e in cc)

pub Stores-some : (th : ℤ) (t : ThreadInfo) → IsRecord th t → Stores th (some t)
Stores-some th t r t' e = rw (← eq_of_some t t' e) r

pub put-Fits :
    (th : ℤ) (o : Option ThreadInfo) {lib : Library}
    → Fits lib
    → Stores th o
    → Fits (put_thread th o lib)
put-Fits (negsuc n) o fits stores = fits
put-Fits (pos n) o {lib} fits stores = record {
  full = length-set lib.threads n o ∙ fits.full;
  owned = λ i t e. elim (get_or-set-cases lib.threads n i o t e) [
    | inl (same, new) ↦ rw (← same) (stores t new)
    | inr old ↦ fits.owned i t old
  ];
  callbacks = fits.callbacks;
}

pub at-Stores : (th : ℤ) {lib : Library} → Fits lib → Stores th (thread_at th lib)
at-Stores (pos n) fits = fits.owned n
at-Stores (negsuc n) fits = Stores-none (negsuc n)

-- The locks and the calls made are free to change.
pub frame-Fits :
    {lib lib' : Library}
    → lib'.threads ≡ lib.threads
    → lib'.signal_handlers ≡ lib.signal_handlers
    → Fits lib
    → Fits lib'
frame-Fits {lib} {lib'} threads handlers fits = record {
  full = ap length threads ∙ fits.full;
  owned = λ i t e. fits.owned i t (ap (λ ts. get_or ts i none) (sym threads) ∙ e);
  callbacks = rw handlers fits.callbacks;
}

-- A record changed in its state alone, or stored with its own pthread.
pub state-IsRecord :
    (th : ℤ) (s : ThreadState) (t : ThreadInfo)
    → IsRecord th t
    → IsRecord th (record t { state = s })
state-IsRecord th s t r = record {
  own_handle = r.own_handle;
  unlocked = r.unlocked;
  named = r.named;
  runs = r.runs;
}

pub begin-Fits : (th : ℤ) {lib : Library} → Fits lib → Fits (func_decorator th lib)
unfolding func_decorator
begin-Fits th {lib} fits = put-Fits th _ fits (started (thread_at th lib) (at-Stores th fits))
  where
    started : (o : Option ThreadInfo) → Stores th o → Stores th (set_state running o)
    started none stores = Stores-none th
    started (some t) stores = Stores-some th _ (state-IsRecord th running t (stores t refl))

pub cleanup-Fits : (th : ℤ) {lib : Library} → Fits lib → Fits (th_cleanup th lib)
unfolding th_cleanup
cleanup-Fits th {lib} fits =
    frame-Fits refl refl
      (put-Fits th none {lib = lock_store lib} (frame-Fits refl refl fits) (Stores-none th))

pub kill_at-Fits :
    (th : ℤ) (o : Option ThreadInfo) {lib : Library}
    → Fits lib
    → Stores th o
    → Fits (kill_at th o lib).1
unfolding kill_at
kill_at-Fits th none fits stores = fits
kill_at-Fits th (some t) {lib} fits stores =
    let same : t.lock + 1 - 1 ≡ t.lock = omega arith in
    let r = stores t refl in
    elim (Bool-cases (has_ended t.state)) [
      | inl ended ↦ rw (ended, same) (put-Fits th (some t) fits stores)
      | inr on ↦
          rw (on, same)
            (put-Fits th _ {lib = record lib { calls = cancel t.pthread ∷ lib.calls }}
              (frame-Fits refl refl fits) (Stores-some th _ (state-IsRecord th cancelled t r)))
    ]

pub kill-Fits : (th : ℤ) {lib : Library} → Fits lib → Fits (th_kill th lib).1
unfolding th_kill
kill-Fits th {lib} fits = elim (Bool-cases (th_valid_handle th)) [
  | inl valid ↦ rw valid (kill_at-Fits th _ fits (at-Stores th fits))
  | inr bad ↦ rw bad fits
]

-- Whatever the other threads do while a thread waits keeps the tables well formed.
abbrev pub Keeping : Others → Type 0
Keeping others = (p : ℕ) (lib : Library) → Fits lib → Fits (others p lib)

module _ {others : Others} (keep : Keeping others) where
  joined-Fits : (s : ThreadState) (p : ℕ) {lib : Library} → Fits lib → Fits (joined others s p lib)
  unfolding joined
  joined-Fits finished p fits = fits
  joined-Fits pending p fits = keep p _ (frame-Fits refl refl fits)
  joined-Fits running p fits = keep p _ (frame-Fits refl refl fits)
  joined-Fits cancelled p fits = keep p _ (frame-Fits refl refl fits)

  wait_at-Fits :
      (th : ℤ) (o : Option ThreadInfo) {lib : Library} → Fits lib → Fits (wait_at others th o lib).1
  unfolding wait_at
  wait_at-Fits th none fits = fits
  wait_at-Fits th (some t) fits = cleanup-Fits th (joined-Fits t.state t.pthread fits)

  pub wait-Fits : (th : ℤ) {lib : Library} → Fits lib → Fits (th_wait others th lib).1
  unfolding th_wait
  wait-Fits th {lib} fits = elim (Bool-cases (th_valid_handle th)) [
    | inl valid ↦ rw valid (wait_at-Fits th (thread_at th lib) fits)
    | inr bad ↦ rw bad fits
  ]

pub wait_all-Fits :
    {others : Others}
    → Keeping others
    → {lib : Library} → Fits lib
    → Fits (th_wait_all others lib).1
unfolding th_wait_all
wait_all-Fits {others} keep {lib} fits =
    and_all-induction (λ i l. Fits l) (th_wait others) (λ i l lt f. wait-Fits keep (pos i) f)
      max_threads 0 thd_error lib (omega arith) fits

pub kill_all-Fits : {lib : Library} → Fits lib → Fits (th_kill_all lib).1
unfolding th_kill_all
kill_all-Fits {lib} fits =
    and_all-induction (λ i l. Fits l) th_kill (λ i l lt f. kill-Fits (pos i) f) max_threads 0
      thd_error lib (omega arith) fits
