-- ===== src/Install/Rounds/Restarted.antt =====
-- However often install_data starts again, the table of threads does not fill.
use legacy_point_monitor.Common.{
  ℕ, zero, suc, List, [], ◌∷◌, ◌++◌, Option-cases, Bool-cases, inl, inr, ◌+◌, ◌≡◌, refl, ◌∙◌, true,
  false, none, some, replicate,
}
use legacy_point_monitor.Common.Outcome.{ok}
use legacy_point_monitor.Threads.State.{Library}
use legacy_point_monitor.Threads.Api.{InitCalls, init_once}
use legacy_point_monitor.Install.Rounds.{
  RoundCalls, Round, Standing, ended, blocked, going, loop_of,
}
use legacy_point_monitor.Install.Rounds.Single.{
  Idle, Proceeds, served, waiting, Alone, Cleared, executed, round-waits, round-served,
}

-- An initialised library needs no second initialisation.
initialised : (c : InitCalls) (lib : Library) → lib.init_done ≡ true → init_once c lib ≡ ok lib
unfolding init_once
initialised c lib done = rw done refl

-- Where main stands after at most so many rounds from the round `i` on, and how many rounds it came
-- through: it waits for ever where nothing wakes it, and it leaves the loop where ReinstallTasks is false.
pub data Course (calls : ℕ → RoundCalls) : ℕ → ℕ → Standing → ℕ → Type 0 where
  pauses : (i : ℕ) → Course calls zero i going zero
  waits : (n i : ℕ) → (calls i).meanwhile ≡ none → Course calls (suc n) i blocked zero
  leaves :
      (n i : ℕ) (f : Library → Library)
      → (calls i).meanwhile ≡ some f
      → (calls i).reinstall ≡ false
      → Course calls (suc n) i ended (suc zero)
  again :
      (n i k : ℕ) (e : Standing) (f : Library → Library)
      → (calls i).meanwhile ≡ some f
      → (calls i).reinstall ≡ true
      → Course calls n (i + 1) e k
      → Course calls (suc n) i e (suc k)

-- The round that main does not come through.
abbrev pub last_round : Standing → List Round
last_round blocked = waiting ∷ []
last_round ended = []
last_round going = []

abbrev pub Leaves : Standing → Library → Library → Type 0
Leaves blocked start lib = Alone start lib
Leaves ended start lib = Cleared start lib
Leaves going start lib = Cleared start lib

Leaves-lock :
    (e : Standing) (start mid lib : Library)
    → mid.store_lock ≡ start.store_lock
    → Leaves e mid lib
    → Leaves e start lib
Leaves-lock blocked start mid lib same (worker, others, lock) = (worker, others, lock ∙ same)
Leaves-lock ended start mid lib same (idle, lock) = (idle, lock ∙ same)
Leaves-lock going start mid lib same (idle, lock) = (idle, lock ∙ same)

-- What the rounds come to.
pub record Stands (n : ℕ) (calls : ℕ → RoundCalls) (i : ℕ) (lib start : Library) : Type 0 where
  pub standing : Standing
  pub served_rounds : ℕ
  pub last : Library
  pub course : Course calls n i standing served_rounds
  pub runs :
      loop_of n calls i lib
      ≡ ok (standing, replicate served_rounds served ++ last_round standing, last)
  pub left : Leaves standing start last

round-Stands :
    (calls : ℕ → RoundCalls) (n i : ℕ) (lib start : Library)
    → Proceeds (calls i)
    → init_once (calls i).execute.init lib ≡ ok start
    → Idle start
    → ((mid : Library) → Idle mid → Stands n calls (i + 1) mid mid)
    → Stands (suc n) calls i lib start
unfolding loop_of
round-Stands calls n i lib start g ready idle next = elim (Option-cases (calls i).meanwhile) [
  | inl blocks ↦
      let (run, alone) = round-waits (calls i) lib start g ready idle blocks in
      record {
        standing = blocked;
        served_rounds = zero;
        last = executed (calls i) lib start g ready idle;
        course = waits n i blocks;
        runs = rw run refl;
        left = alone;
      }
  | inr (f, wakes) ↦
      let (mid, run, cleared) = round-served (calls i) lib start g ready idle f wakes in
      elim (Bool-cases (calls i).reinstall) [
        | inl restarts ↦
            let rest = next mid cleared.0 in
            record {
              standing = rest.standing;
              served_rounds = suc rest.served_rounds;
              last = rest.last;
              course = again n i rest.served_rounds rest.standing f wakes restarts rest.course;
              runs = rw (run, restarts, rest.runs) refl;
              left = Leaves-lock rest.standing start mid rest.last cleared.1 rest.left;
            }
        | inr stops ↦ record {
          standing = ended;
          served_rounds = suc zero;
          last = mid;
          course = leaves n i f wakes stops;
          runs = rw (run, stops) refl;
          left = cleared;
        }
      ]
]

Idle-Stands :
    (calls : ℕ → RoundCalls)
    → ((j : ℕ) → Proceeds (calls j))
    → (n i : ℕ) (lib : Library) → Idle lib
    → Stands n calls i lib lib
unfolding loop_of
Idle-Stands calls g zero i lib idle = record {
  standing = going;
  served_rounds = zero;
  last = lib;
  course = pauses i;
  runs = refl;
  left = (idle, refl);
}
Idle-Stands calls g (suc n) i lib idle =
    round-Stands calls n i lib lib (g i) (initialised (calls i).execute.init lib idle.init) idle
      (Idle-Stands calls g n (i + 1))

-- Where main starts with well-formed tables and no thread managed, each thread can be made, each
-- pthread_join returns, and the other threads neither take records out of the table nor put any in,
-- keep the tables well formed and leave StoreLock and the initialisation as they were: for every number
-- of rounds of the loop of install_data from one on, main neither exits nor faults in them, and as long
-- as it is woken from pthread_cond_wait and ReinstallTasks is true it goes on; th_execute answers the
-- handle 0 in every round, and th_wait_all THD_OK in every round that main comes through. Between two
-- rounds and behind the loop no thread is managed, and where main waits for ever the worker alone is;
-- StoreLock is held as often as before.
pub loop-Restarts :
    (calls : ℕ → RoundCalls) (n i : ℕ) (lib start : Library)
    → ((j : ℕ) → Proceeds (calls j))
    → init_once (calls i).execute.init lib ≡ ok start
    → Idle start
    → Stands (suc n) calls i lib start
loop-Restarts calls n i lib start g ready idle =
    round-Stands calls n i lib start (g i) ready idle (Idle-Stands calls g n (i + 1))
