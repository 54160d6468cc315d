-- ===== src/Install/Rounds.antt =====
-- src/bin/install_data/install_data.c: the loop of main on the table of threads of the thread library.
-- What becomes of the tasks in the meantime is in Install/Loop.antt.
pub mod Calm
pub mod Single
pub mod Restarted
use legacy_point_monitor.Common.{
  ℕ, zero, suc, ◌+◌, Bool, true, false, Option, none, some, List, [], ◌∷◌, if◌then◌else◌,
}
use legacy_point_monitor.Common.Int.{ℤ, pos, ◌==ℤ◌}
use legacy_point_monitor.Common.Outcome.{Outcome, ok, exited, ◌>>=◌}
use legacy_point_monitor.Threads.State.{thd_error, Function, Library}
use legacy_point_monitor.Threads.Api.{ExecuteCalls, th_execute, Others, th_wait_all, th_kill_all}

-- `&thread_entry_point`
abbrev pub thread_entry_point : Function
thread_entry_point = 6

-- The answers to th_execute; what the other threads have done to the library when main goes on after
-- pthread_cond_wait, or none where main waits there for ever; what they have done when each join returns;
-- and ReinstallTasks at the end of the round.
pub record RoundCalls : Type 0 where
  pub execute : ExecuteCalls
  pub meanwhile : Option (Library → Library)
  pub others : Others
  pub reinstall : Bool

-- The worker's handle, and the answer of th_wait_all if main comes to it.
pub record Round : Type 0 where
  pub handle : ℤ
  pub answer : Option ℤ

-- From pthread_cond_wait on.
unfoldable pub woken : Option (Library → Library) → Others → ℤ → Library → Round × Library
woken none others handle lib = (record { handle = handle; answer = none }, lib)
woken (some meanwhile) others handle lib =
    let waited = th_wait_all others (th_kill_all (meanwhile lib)).1 in
    (record { handle = handle; answer = some waited.0 }, waited.1)

-- The body of the loop.
unfoldable pub round_of : RoundCalls → Library → Outcome (Round × Library)
unfolding woken
round_of c lib = do
  r ← th_execute c.execute thread_entry_point lib
  if r.0 ==ℤ thd_error then exited (pos 1) else ok (woken c.meanwhile c.others r.0 r.1)

-- Where main stands after some rounds: behind the loop, in pthread_cond_wait for ever, or before the next
-- round.
pub data Standing : Type 0 where
  ended blocked going : Standing

-- `do ... while (ReinstallTasks)`, for a number of rounds, with what each round came to.
unfoldable pub loop_of :
    ℕ → (ℕ → RoundCalls) → ℕ → Library → Outcome (Standing × List Round × Library)
unfolding round_of
loop_of zero calls i lib = ok (going, [], lib)
loop_of (suc rounds) calls i lib = do
  r ← round_of (calls i) lib
  elim r.0.answer [
    | none ↦ ok (blocked, r.0 ∷ [], r.1)
    | some answer ↦ elim (calls i).reinstall [
      | true ↦ do rest ← loop_of rounds calls (i + 1) r.1; ok (rest.0, r.0 ∷ rest.1, rest.2)
      | false ↦ ok (ended, r.0 ∷ [], r.1)
    ]
  ]
