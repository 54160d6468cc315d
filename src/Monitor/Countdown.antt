-- ===== src/Monitor/Countdown.antt =====
-- How many reports the monitor makes, and how it ends.
use mathlib.Core.List.{append_assoc}
use native.Mathlib.Nat.{add-zero}
use legacy_point_monitor.Common.{
  ℕ, zero, suc, ◌+◌, ◌<◌, ◌≤◌, ◌≡◌, refl, ap, ◌∙◌, true, false, Option, List, [], ◌∷◌, ◌++◌, arith,
  sym, ◌⊎◌, inl, inr, Bool-cases,
}
use legacy_point_monitor.Common.Int.{ℤ, pos}
use legacy_point_monitor.Points.{Float, show_points}
use legacy_point_monitor.Monitor.{
  Action, connecting, segments_shown, seconds_left, lock_lost, unlocked, slept, detached, shown,
  duration, Rounds, round, countdown, monitor_for, monitor_main,
}

module _ {F : Type 0} where
  -- How often the points are reported, how often the program sleeps for a second, and whether the
  -- last thing that it does is to detach.
  abbrev pub reports : List (Action F) → ℕ
  reports [] = 0
  reports (shown ls ∷ acts) = suc (reports acts)
  reports (_ ∷ acts) = reports acts

  abbrev pub seconds_slept : List (Action F) → ℕ
  seconds_slept [] = 0
  seconds_slept (slept ∷ acts) = suc (seconds_slept acts)
  seconds_slept (_ ∷ acts) = seconds_slept acts

  abbrev pub EndsDetached : List (Action F) → Type 0
  EndsDetached acts = (before : List (Action F)) × (acts ≡ before ++ detached ∷ [])

  -- The loop ends before round `k`: `Running` was true till then, and is false there or the time is up.
  pub record StopsAt (r : Rounds F) (seconds i k : ℕ) : Type 0 where
    pub within : k ≤ seconds
    pub runs : (j : ℕ) → j < k → r.running (i + j) ≡ true
    pub stops : (k ≡ seconds) ⊎ (r.running (i + k) ≡ false)

  EndsDetached-before :
      (done acts : List (Action F)) → EndsDetached acts → EndsDetached (done ++ acts)
  EndsDetached-before done acts (before, e) =
      (done ++ before, ap (λ z. done ++ z) e ∙ sym (append_assoc done before (detached ∷ [])))

  abbrev Ended : ℕ → List (Action F) → Type 0
  Ended k acts = (reports acts ≡ k) × (seconds_slept acts ≡ k) × EndsDetached acts

  module _ (f : Float F) (r : Rounds F) where
    -- A round reports once and sleeps once.
    round-Ended :
        (i k : ℕ) (acts : List (Action F)) → Ended k acts → Ended (suc k) (round f r i ++ acts)
    unfolding round
    round-Ended i k acts e = elim (Bool-cases (r.lock i)) [
      | inl got ↦ rw got (
        ap suc e.0,
        ap suc e.1,
        EndsDetached-before
            (seconds_left ∷ shown (show_points f (r.points i)) ∷ unlocked ∷ slept ∷ []) acts e.2,
      )
      | inr lost ↦ rw lost (
        ap suc e.0,
        ap suc e.1,
        EndsDetached-before
            (seconds_left ∷ lock_lost ∷ shown (show_points f (r.points i)) ∷ slept ∷ []) acts e.2,
      )
    ]

    later : (seconds i k : ℕ) → StopsAt r (suc seconds) i (suc k) → StopsAt r seconds (i + 1) k
    later seconds i k s = record {
      within = omega (arith, s.within);
      runs = λ j lt. ap r.running (shift j) ∙ s.runs (suc j) (omega arith);
      stops = elim s.stops [
        | inl e ↦ inl (omega (arith, e))
        | inr off ↦ inr (ap r.running (shift k) ∙ off)
      ];
    }
      where
        shift : (j : ℕ) → i + 1 + j ≡ i + suc j
        shift j = omega arith

    countdown-Ended :
        (seconds i k : ℕ)
        → StopsAt r seconds i k
        → Ended k (countdown f r seconds i (detached ∷ []))
    unfolding countdown
    countdown-Ended zero i zero s = (refl, refl, ([], refl))
    countdown-Ended zero i (suc k) s = elim s.within [ ]
    countdown-Ended (suc seconds) i zero s = elim s.stops [
      | inl e ↦ absurd (cc)
      | inr off ↦ rw (ap r.running (sym (add-zero i)) ∙ off) (refl, refl, ([], refl))
    ]
    countdown-Ended (suc seconds) i (suc k) s =
        rw (ap r.running (sym (add-zero i)) ∙ s.runs 0 (omega arith))
          (round-Ended i k _ (countdown-Ended seconds (i + 1) k (later seconds i k s)))

  -- With a duration of at least a second and an address from connect_shm, monitor_shm reports and
  -- sleeps once in each round until the time is up or `Running` is false, then detaches, and exits
  -- with 0.
  pub main-counts :
      (f : Float F) (r : Rounds F) (arg : Option ℤ) (n k : ℕ)
      → duration arg ≡ pos (suc n)
      → StopsAt r (suc n) 0 k
      → (reports (monitor_main f r arg true).0 ≡ k)
        × (seconds_slept (monitor_main f r arg true).0 ≡ k)
        × EndsDetached (monitor_main f r arg true).0
        × ((monitor_main f r arg true).1 ≡ pos 0)
  unfolding monitor_main monitor_for
  main-counts f r arg n k e s =
      let end = countdown-Ended f r (suc n) 0 k s in
      rw e (
        end.0,
        end.1,
        EndsDetached-before (connecting ∷ segments_shown ∷ [])
            (countdown f r (suc n) 0 (detached ∷ [])) end.2,
        refl,
      )
