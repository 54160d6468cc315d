-- ===== src/Threads/Shown.antt =====
-- What show_all_threads prints.
use legacy_point_monitor.Common.{
  ℕ, zero, suc, ◌+◌, ◌≡◌, refl, ap, true, Option, none, some, List, [], ◌∷◌, map, get_or,
  if◌then◌else◌, ltb, arith,
}
use legacy_point_monitor.Common.Int.{pos}
use legacy_point_monitor.Threads.State.{max_threads, ThreadInfo, Library, th_valid_handle}
use legacy_point_monitor.Threads.Api.{get_thread_state, state_of}
use legacy_point_monitor.Threads.Wait.{managed, is_some}
use legacy_point_monitor.Threads.Table.{Fits, Stores}
use legacy_point_monitor.Threads.Manager.{
  ThreadLine, threads_header, thread_line, line_of, show_from, show_all_threads, get_thread_name,
  name_in,
}

-- The managed handles among the next ones, in order.
pub managed_from : Library → ℕ → ℕ → List ℕ
managed_from lib zero idx = []
managed_from lib (suc n) idx =
    let rest = managed_from lib n (idx + 1) in if managed lib idx then idx ∷ rest else rest

-- The lines are those of the threads with these handles, with the names and the states that
-- get_thread_name and get_thread_state answer for them.
abbrev AreOf : Library → List ThreadLine → List ℕ → Type 0
AreOf lib lines handles =
    (map (λ line. line.handle) lines ≡ map pos handles)
    × (map (λ (line : ThreadLine). some line.name) lines
        ≡ map (λ i. get_thread_name (pos i) lib) handles)
    × (map (λ (line : ThreadLine). some line.state) lines
        ≡ map (λ i. get_thread_state (pos i) lib) handles)

abbrev pub Shows : Library → Type 0
Shows lib =
    (lines : List ThreadLine) × (show_all_threads lib ≡ threads_header ∷ map thread_line lines)
    × AreOf lib lines (managed_from lib max_threads 0)

abbrev ShowsFrom : Library → ℕ → ℕ → List ℕ → Type 0
ShowsFrom lib n idx handles =
    (lines : List ThreadLine) × (show_from n idx lib ≡ map thread_line lines)
    × AreOf lib lines handles

show_from-next :
    (lib : Library) (n idx : ℕ) (o : Option ThreadInfo) (handles : List ℕ)
    → ltb idx max_threads ≡ true
    → get_or lib.threads idx none ≡ o
    → Stores (pos idx) o
    → ShowsFrom lib n (idx + 1) handles
    → ShowsFrom lib (suc n) idx (if is_some o then idx ∷ handles else handles)
unfolding show_from line_of
show_from-next lib n idx none handles lt e stores (lines, printed, are) = (lines, rw e printed, are)
show_from-next lib n idx (some t) handles lt e stores (lines, printed, (own, names, states)) =
    let named : get_thread_name (pos idx) lib ≡ some t.name =
      unfold get_thread_name th_valid_handle in rw lt (ap name_in e) in
    let stated : get_thread_state (pos idx) lib ≡ some t.state =
      unfold get_thread_state th_valid_handle in rw lt (ap state_of e) in
    let line : ThreadLine = record { handle = t.handle; name = t.name; state = t.state } in
    (
      line ∷ lines,
      rw e (ap (λ ls. thread_line line ∷ ls) printed),
      (rw (own, (stores t refl).own_handle) refl, rw (names, named) refl, rw (states, stated) refl),
    )

show_from-managed :
    (lib : Library)
    → Fits lib
    → (n idx : ℕ) → idx + n ≡ max_threads
    → ShowsFrom lib n idx (managed_from lib n idx)
unfolding show_from managed_from
show_from-managed lib fits zero idx e = ([], refl, (refl, refl, refl))
show_from-managed lib fits (suc n) idx e =
    show_from-next lib n idx (get_or lib.threads idx none) (managed_from lib n (idx + 1))
      (ground arith) refl (fits.owned idx) (show_from-managed lib fits n (idx + 1) (omega arith))

-- On a well-formed table show_all_threads prints its header, then one line for each managed thread
-- and no other, in ascending order of the handles, each with the thread's own handle and the name and
-- the state that get_thread_name and get_thread_state answer for it.
pub show_all-managed : (lib : Library) → Fits lib → Shows lib
unfolding show_all_threads
show_all-managed lib fits =
    let (lines, printed, are) = show_from-managed lib fits max_threads 0 (omega arith) in
    (lines, ap (λ ls. threads_header ∷ ls) printed, are)
