-- ===== src/Threads/All.antt =====
-- The loop of th_wait_all and th_kill_all: `ret &= f(idx)` over all handles, from THD_ERROR.
use legacy_point_monitor.Common.{
  ℕ, zero, suc, ◌+◌, ◌<◌, ◌≤◌, ◌≡◌, ◌≢◌, refl, sym, ap, ℕ-cases, inl, inr, ◌∙◌, Bool, true, false,
  ◌||◌, arith, if◌then◌else◌,
}
use legacy_point_monitor.Common.Int.{ℤ, pos, ◌&ℤ◌}
use legacy_point_monitor.Threads.State.{Library, max_threads, thd_ok, thd_error}
use legacy_point_monitor.Threads.Api.{and_all}

-- THD_OK for true, THD_ERROR for false.
abbrev pub code_of : Bool → ℤ
code_of b = if b then thd_ok else thd_error

and-code_of : (a b : Bool) → code_of a &ℤ code_of b ≡ code_of (a || b)
unfolding ◌&ℤ◌
and-code_of true true = refl
and-code_of true false = refl
and-code_of false true = refl
and-code_of false false = refl

any_hit : (ℕ → Bool) → ℕ → ℕ → Bool
any_hit h idx zero = false
any_hit h idx (suc n) = h idx || any_hit h (idx + 1) n

any_hit_congr :
    (h g : ℕ → Bool) (idx n : ℕ)
    → ((j : ℕ) → idx ≤ j → h j ≡ g j)
    → any_hit h idx n ≡ any_hit g idx n
unfolding any_hit
any_hit_congr h g idx zero same = refl
any_hit_congr h g idx (suc n) same =
    rw (same idx (omega arith), any_hit_congr h g (idx + 1) n (λ j le. same j (omega arith))) refl

or-true : (b : Bool) → (b || true) ≡ true
or-true true = refl
or-true false = refl

or_assoc : (a b c : Bool) → ((a || b) || c) ≡ (a || (b || c))
or_assoc true b c = refl
or_assoc false b c = refl

any_hit-true :
    (h : ℕ → Bool) (idx n i : ℕ) → idx ≤ i → i < idx + n → h i ≡ true → any_hit h idx n ≡ true
unfolding any_hit
any_hit-true h idx zero i lo hi e = absurd (omega arith)
any_hit-true h idx (suc n) i lo hi e = elim (ℕ-cases i idx) [
  | inl same ↦ let e' : h idx ≡ true = ap h (sym same) ∙ e in rw e' refl
  | inr ne ↦ rw (any_hit-true h (idx + 1) n i (omega arith) (omega arith) e) (or-true (h idx))
]

any_hit-false :
    (h : ℕ → Bool) (idx n : ℕ)
    → ((i : ℕ) → idx ≤ i → i < idx + n → h i ≡ false)
    → any_hit h idx n ≡ false
unfolding any_hit
any_hit-false h idx zero no_hit = refl
any_hit-false h idx (suc n) no_hit =
    rw
      (
        no_hit idx (omega arith) (omega arith),
        any_hit-false h (idx + 1) n (λ i lo hi. no_hit i (omega arith) (omega arith)),
      )
      refl

-- A call that answers THD_OK exactly at the handles that `hit` marks, and leaves the marks of the
-- other handles alone.
pub record Answers (f : ℤ → Library → ℤ × Library) (hit : Library → ℕ → Bool) : Type 0 where
  pub answer : (i : ℕ) (lib : Library) → i < max_threads → (f (pos i) lib).0 ≡ code_of (hit lib i)
  pub keeps :
      (i j : ℕ) (lib : Library) → i < max_threads → i ≢ j → hit (f (pos i) lib).1 j ≡ hit lib j

module _ {f : ℤ → Library → ℤ × Library} {hit : Library → ℕ → Bool} (a : Answers f hit) where
  and_all-any_hit :
      (n idx : ℕ) (b : Bool) (lib : Library)
      → idx + n ≡ max_threads
      → (and_all f n idx (code_of b) lib).0 ≡ code_of (b || any_hit (hit lib) idx n)
  unfolding and_all any_hit
  and_all-any_hit zero idx true lib e = refl
  and_all-any_hit zero idx false lib e = refl
  and_all-any_hit (suc n) idx b lib e =
      let after = (f (pos idx) lib).1 in
      let same =
        any_hit_congr (hit after) (hit lib) (idx + 1) n
          (λ j le. a.keeps idx j lib (omega arith) (omega arith)) in
      let ret =
        ap (λ c. code_of b &ℤ c) (a.answer idx lib (omega arith)) ∙ and-code_of b (hit lib idx) in
      ap (λ c. (and_all f n (idx + 1) c after).0) ret
      ∙ and_all-any_hit n (idx + 1) (b || hit lib idx) after (omega arith)
      ∙ ap code_of (or_assoc b (hit lib idx) _ ∙ ap (λ x. b || (hit lib idx || x)) same)

  -- The loop answers THD_OK if one of the handles is marked, and THD_ERROR if none is.
  pub and_all-code :
      (lib : Library)
      → ((i : ℕ)
          → i < max_threads
          → hit lib i ≡ true
          → (and_all f max_threads 0 thd_error lib).0 ≡ thd_ok)
        × (((i : ℕ) → i < max_threads → hit lib i ≡ false)
            → (and_all f max_threads 0 thd_error lib).0 ≡ thd_error)
  and_all-code lib =
      let all = and_all-any_hit max_threads 0 false lib (omega arith) in
      (
        λ i lt e.
            all ∙ ap code_of (any_hit-true (hit lib) 0 max_threads i (omega arith) (omega arith) e),
        λ no_hit.
            all
            ∙ ap code_of
                (any_hit-false (hit lib) 0 max_threads (λ i lo hi. no_hit i (omega arith))),
      )

-- An invariant of the loop, with the index in it.
pub and_all-induction :
    (P : ℕ → Library → Type 0) (f : ℤ → Library → ℤ × Library)
    → ((i : ℕ) (lib : Library) → i < max_threads → P i lib → P (i + 1) (f (pos i) lib).1)
    → (n idx : ℕ) (ret : ℤ) (lib : Library) → idx + n ≡ max_threads
    → P idx lib
    → P max_threads (and_all f n idx ret lib).1
unfolding and_all
and_all-induction P f keep zero idx ret lib e p =
    let e' : idx ≡ max_threads = omega arith in rw (← e') p
and_all-induction P f keep (suc n) idx ret lib e p =
    and_all-induction P f keep n (idx + 1) _ _ (omega arith) (keep idx lib (omega arith) p)
