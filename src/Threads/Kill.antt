-- ===== src/Threads/Kill.antt =====
-- th_kill and th_kill_all: what they answer and which records they change; and a worker that starts
-- after it was killed.
use legacy_point_monitor.Common.{
  ℕ, zero, suc, ◌+◌, ◌-◌, ◌<◌, ◌≤◌, ◌≡◌, ◌≢◌, refl, sym, ap, ◌∙◌, Bool, true, false, not, Option,
  none, some, List, [], ◌∷◌, get_or, set, length, get_or-set_self, get_or-set_ne, length-set, arith,
  if◌then◌else◌, ltb, ℕ-cases, Bool-cases, inl, inr,
}
use legacy_point_monitor.Common.Int.{ℤ, pos}
use legacy_point_monitor.Threads.State.{
  max_threads, thd_ok, thd_error, pending, running, cancelled, ThreadInfo, Call, cancel, Library,
  th_valid_handle,
}
use legacy_point_monitor.Threads.Api.{
  has_ended, kill_at, th_kill, th_kill_all, func_decorator, set_state, get_thread_state, state_of,
}
use legacy_point_monitor.Threads.All.{code_of, Answers, and_all-code, and_all-induction}
use legacy_point_monitor.Threads.Wait.{managed, is_some}

-- The thread has not been cancelled and has not exited.
abbrev pub is_live : Option ThreadInfo → Bool
is_live none = false
is_live (some t) = not (has_ended t.state)

abbrev pub live : Library → ℕ → Bool
live lib i = is_live (get_or lib.threads i none)

-- The record after th_kill.
abbrev pub after_kill : Option ThreadInfo → Option ThreadInfo
after_kill none = none
after_kill (some t) = if has_ended t.state then some t else some (record t { state = cancelled })

-- The cancellations that th_kill asks for.
abbrev pub cancels : Option ThreadInfo → List Call → List Call
cancels none calls = calls
cancels (some t) calls = if has_ended t.state then calls else cancel t.pthread ∷ calls

-- The table with th_kill done at the handle `i`.
abbrev pub killed : ℕ → Library → Library
killed i lib =
    let t = get_or lib.threads i none in
    record lib { threads = set lib.threads i (after_kill t); calls = cancels t lib.calls }

set-same {ℓ} : {A : Type ℓ} (xs : List A) (i : ℕ) (d : A) → set xs i (get_or xs i d) ≡ xs
set-same [] i d = refl
set-same (x ∷ xs) zero d = refl
set-same (x ∷ xs) (suc i) d = ap (λ ys. x ∷ ys) (set-same xs i d)

kill_at-killed :
    (i : ℕ) (t : Option ThreadInfo) (lib : Library)
    → get_or lib.threads i none ≡ t
    → kill_at (pos i) t lib ≡ (
      code_of (is_live t),
      record lib { threads = set lib.threads i (after_kill t); calls = cancels t lib.calls },
    )
unfolding kill_at
kill_at-killed i none lib e =
    let same = ap (set lib.threads i) (sym e) ∙ set-same lib.threads i none in
    ap (λ ts. (thd_error, record lib { threads = ts })) (sym same)
kill_at-killed i (some t) lib e =
    let unlocked : t.lock + 1 - 1 ≡ t.lock = omega arith in
    elim (Bool-cases (has_ended t.state)) [
      | inl ended ↦ rw (ended, unlocked) refl
      | inr on ↦ rw (on, unlocked) refl
    ]

pub get_or-set_map {ℓ} :
    {A : Type ℓ} (f : Option A → Option A) (xs : List (Option A)) (i : ℕ)
    → f none ≡ none
    → get_or (set xs i (f (get_or xs i none))) i none ≡ f (get_or xs i none)
get_or-set_map f [] i e = sym e
get_or-set_map f (x ∷ xs) zero e = refl
get_or-set_map f (x ∷ xs) (suc i) e = get_or-set_map f xs i e

-- th_kill on a handle from 0 to 49 answers THD_OK exactly if a thread that was neither cancelled
-- nor exited is managed under it; then it asks for its cancellation and sets its state to
-- CANCELLED, and changes nothing else; otherwise it changes nothing.
pub kill-killed :
    (i : ℕ) (lib : Library)
    → i < max_threads
    → th_kill (pos i) lib ≡ (code_of (live lib i), killed i lib)
unfolding th_kill th_valid_handle
kill-killed i lib lt =
    let valid : ltb i max_threads ≡ true = ground arith in
    rw valid (kill_at-killed i (get_or lib.threads i none) lib refl)

live-killed_self : (i : ℕ) (lib : Library) → live (killed i lib) i ≡ false
live-killed_self i lib =
    ap is_live (get_or-set_map after_kill lib.threads i refl) ∙ dead (get_or lib.threads i none)
  where
    dead : (t : Option ThreadInfo) → is_live (after_kill t) ≡ false
    dead none = refl
    dead (some t) = elim (Bool-cases (has_ended t.state)) [
      | inl ended ↦ rw (ended, after_kill, is_live) (rw ended refl)
      | inr on ↦ rw on refl
    ]

live-killed_ne : (i j : ℕ) (lib : Library) → i ≢ j → live (killed i lib) j ≡ live lib j
live-killed_ne i j lib ne = ap is_live (get_or-set_ne lib.threads i j _ none ne)

managed-killed : (i j : ℕ) (lib : Library) → managed (killed i lib) j ≡ managed lib j
managed-killed i j lib = elim (ℕ-cases i j) [
  | inl e ↦
      rw (← e) (
        ap is_some (get_or-set_map after_kill lib.threads i refl)
        ∙ kept (get_or lib.threads i none))
  | inr ne ↦ ap is_some (get_or-set_ne lib.threads i j _ none ne)
]
  where
    kept : (t : Option ThreadInfo) → is_some (after_kill t) ≡ is_some t
    kept none = refl
    kept (some t) = elim (Bool-cases (has_ended t.state)) [
      | inl ended ↦ rw ended refl
      | inr on ↦ rw on refl
    ]

th_kill-Answers : Answers th_kill live
th_kill-Answers = record {
  answer = λ i lib lt. ap (λ (r : ℤ × Library). r.0) (kill-killed i lib lt);
  keeps = λ i j lib lt ne.
      ap (λ (r : ℤ × Library). live r.1 j) (kill-killed i lib lt) ∙ live-killed_ne i j lib ne;
}

-- The cancellations of the live threads with the handles below `n`, the last one first, in front of the
-- calls before.
pub asked : Library → ℕ → List Call
asked lib zero = lib.calls
asked lib (suc i) = cancels (get_or lib.threads i none) (asked lib i)

-- What th_kill_all comes to: THD_OK if some managed thread had not ended, THD_ERROR if none was such,
-- be it that none is managed or that all have ended; afterwards every thread has ended, and the same
-- handles are managed; pthread_cancel was called once for each thread that had not ended, in the order
-- of the handles, and for no other; and each record is as it was, but for the state of those that had
-- not ended.
abbrev pub KillsAll : Library → Type 0
KillsAll lib =
    ((i : ℕ) → i < max_threads → live lib i ≡ true → (th_kill_all lib).0 ≡ thd_ok)
    × (((i : ℕ) → i < max_threads → live lib i ≡ false) → (th_kill_all lib).0 ≡ thd_error)
    × ((i : ℕ) → i < max_threads → live (th_kill_all lib).1 i ≡ false)
    × ((i : ℕ) → managed (th_kill_all lib).1 i ≡ managed lib i)
    × ((th_kill_all lib).1.calls ≡ asked lib max_threads)
    × ((i : ℕ)
        → i < max_threads
        → get_or (th_kill_all lib).1.threads i none ≡ after_kill (get_or lib.threads i none))

-- The loop has come to the handle `idx`.
record KilledBelow (start : Library) (idx : ℕ) (lib : Library) : Type 0 where
  ended : (j : ℕ) → j < idx → live lib j ≡ false
  same : (j : ℕ) → managed lib j ≡ managed start j
  calls : lib.calls ≡ asked start idx
  done : (j : ℕ) → j < idx → get_or lib.threads j none ≡ after_kill (get_or start.threads j none)
  left : (j : ℕ) → idx ≤ j → get_or lib.threads j none ≡ get_or start.threads j none

asked-cancels :
    (lib : Library) (i : ℕ) → asked lib (i + 1) ≡ cancels (get_or lib.threads i none) (asked lib i)
unfolding asked
asked-cancels lib i = let next : i + 1 ≡ suc i = omega arith in rw next refl

kill_step :
    (start : Library) (i : ℕ) (lib : Library)
    → i < max_threads
    → KilledBelow start i lib
    → KilledBelow start (i + 1) (th_kill (pos i) lib).1
kill_step start i lib lt k = rw (kill-killed i lib lt) (record {
  ended = λ j next. elim (ℕ-cases i j) [
    | inl e ↦ rw (← e) (live-killed_self i lib)
    | inr ne ↦ live-killed_ne i j lib ne ∙ k.ended j (omega arith)
  ];
  same = λ j. managed-killed i j lib ∙ k.same j;
  calls =
      ap (λ o. cancels o lib.calls) (k.left i (omega arith))
      ∙ ap (cancels (get_or start.threads i none)) k.calls
      ∙ sym (asked-cancels start i);
  done = λ j next. elim (ℕ-cases i j) [
    | inl e ↦
        rw (← e)
          (get_or-set_map after_kill lib.threads i refl ∙ ap after_kill (k.left i (omega arith)))
    | inr ne ↦ get_or-set_ne lib.threads i j _ none ne ∙ k.done j (omega arith)
  ];
  left = λ j le. get_or-set_ne lib.threads i j _ none (omega arith) ∙ k.left j (omega arith);
})

-- th_kill_all answers THD_OK if some managed thread had neither been cancelled nor exited, and
-- THD_ERROR if none was such; it calls pthread_cancel once for each thread that had neither been
-- cancelled nor exited, in the order of the handles, and for no other; afterwards these threads have the
-- state CANCELLED, every managed thread has been cancelled or has exited, the records are otherwise
-- unchanged, and the same handles are managed.
pub kill_all-ends : (lib : Library) → KillsAll lib
unfolding th_kill_all
kill_all-ends lib =
    let codes = and_all-code th_kill-Answers lib in
    let done =
      and_all-induction (KilledBelow lib) th_kill (kill_step lib) max_threads 0 thd_error lib
        (omega arith)
        (record {
          ended = λ j lt. elim lt [ ];
          same = λ j. refl;
          calls = unfold asked in refl;
          done = λ j lt. elim lt [ ];
          left = λ j le. refl;
        }) in
    (codes.0, codes.1, done.ended, done.same, done.calls, done.done)

-- A worker that starts after th_kill: its state is RUNNING again, although its cancellation has been
-- asked for, and a second th_kill answers THD_OK and asks for it once more.
abbrev pub Revived : ℕ → ThreadInfo → Library → Type 0
Revived i t lib =
    let started = func_decorator (pos i) (killed i lib) in
    (get_thread_state (pos i) (killed i lib) ≡ some cancelled)
    × (get_thread_state (pos i) started ≡ some running)
    × (started.calls ≡ cancel t.pthread ∷ lib.calls)
    × (th_kill (pos i) started ≡ (thd_ok, killed i started))
    × ((killed i started).calls ≡ cancel t.pthread ∷ cancel t.pthread ∷ lib.calls)

-- th_kill on a thread that is still PENDING cancels it; func_decorator, which then runs in it, sets
-- its state to RUNNING, and a second th_kill answers THD_OK and asks for the cancellation again.
pub start-kill :
    (i : ℕ) (t : ThreadInfo) (lib : Library)
    → i < max_threads
    → i < length lib.threads
    → get_or lib.threads i none ≡ some t
    → t.state ≡ pending
    → (th_kill (pos i) lib ≡ (thd_ok, killed i lib)) × Revived i t lib
unfolding func_decorator get_thread_state th_valid_handle
start-kill i t lib lt inside here is_pending =
    let valid : ltb i max_threads ≡ true = ground arith in
    let stopped : ThreadInfo = record t { state = cancelled } in
    let restarted : ThreadInfo = record t { state = running } in
    let started = func_decorator (pos i) (killed i lib) in
    let was_live : live lib i ≡ true = ap is_live here ∙ rw is_pending refl in
    let stop : after_kill (some t) ≡ some stopped = rw is_pending refl in
    let first : get_or (killed i lib).threads i none ≡ some stopped =
      get_or-set_self lib.threads i _ none inside ∙ ap after_kill here ∙ stop in
    let second : get_or started.threads i none ≡ some restarted =
      get_or-set_self (killed i lib).threads i _ none
        (omega (arith, length-set lib.threads i (after_kill (get_or lib.threads i none))))
      ∙ ap (set_state running) first in
    let called : started.calls ≡ cancel t.pthread ∷ lib.calls =
      ap (λ x. cancels x lib.calls) here ∙ rw is_pending refl in
    (
      kill-killed i lib lt ∙ ap (λ b. (code_of b, killed i lib)) was_live,
      (
        rw valid (ap state_of first),
        rw valid (ap state_of second),
        called,
        kill-killed i started lt ∙ ap (λ b. (code_of b, killed i started)) (ap is_live second),
        ap (λ x. cancels x started.calls) second ∙ ap (λ c. cancel t.pthread ∷ c) called,
      ),
    )
