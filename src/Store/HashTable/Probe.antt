-- ===== src/Store/HashTable/Probe.antt =====
-- The probe loop of hash_table.c: where it ends, that it ends, and what a write to one slot does to
-- the path from a key's own index to its node.
use native.Mathlib.Nat.{mod-lt, mod-eq_of_lt, mod-add-mod, add-mod_right, add-zero}
use legacy_point_monitor.Common.{
  ℕ, zero, suc, ◌+◌, ◌-◌, ◌%◌, ◌<◌, ◌≤◌, ◌≡◌, ◌≢◌, refl, sym, ap, ◌∙◌, Bool-cases, ℕ-cases, inl,
  inr, Option, none, some, arith, ◌⊎◌,
}
use legacy_point_monitor.Common.Int.{ℤ, ◌==ℤ◌, eq_of_beqℤ, ne_of_beqℤ, beqℤ_refl, beqℤ_of_ne}
use legacy_point_monitor.Common.Outcome.{Outcome, ok, out_of_fuel}
use legacy_point_monitor.Store.HashTable.{HashNode, Hash, Slot, hit, vacant, slot, visit, probe}

-- The index after `d` rounds of the loop.
unfoldable pub walk : ℕ → ℕ → ℕ → ℕ
walk n s zero = s
walk n s (suc d) = walk n ((s + 1) % n) d

module _ {ℓ} {V : Type ℓ} where
  -- A slot that the loop for `k` goes past.
  abbrev pub Blocks : Option (HashNode V) → ℤ → Type 0
  Blocks none k = ⊥
  Blocks (some n) k = n.key ≢ k

  -- The loop for `k` goes past `d` slots from `s`.
  abbrev pub Passes : Hash V → ℤ → ℕ → ℕ → Type 0
  Passes h k s zero = Unit
  Passes h k s (suc d) = Blocks (slot h s) k × Passes h k ((s + 1) % h.size) d

  -- The loop for `k` ends at index `i` with the result `r`.
  abbrev pub Stops : Hash V → ℤ → ℕ → Slot V → Type ℓ
  Stops h k i (hit j n) = (j ≡ i) × (slot h i ≡ some n) × (n.key ≡ k)
  Stops h k i (vacant j) = (j ≡ i) × (slot h i ≡ none)

  visit-Stops :
      (h : Hash V) (k : ℤ) (i : ℕ) (r : Slot V) (rest : Outcome (Slot V))
      → Stops h k i r
      → visit k i (slot h i) rest ≡ ok r
  visit-Stops h k i (hit j n) rest (same, e, key) = rw (e, visit, key, beqℤ_refl k, same) refl
  visit-Stops h k i (vacant j) rest (same, e) = rw (e, visit, same) refl

  visit-Blocks :
      (k : ℤ) (i : ℕ) (c : Option (HashNode V)) (rest : Outcome (Slot V))
      → Blocks c k
      → visit k i c rest ≡ rest
  visit-Blocks k i none rest b = absurd b
  visit-Blocks k i (some n) rest b = rw (beqℤ_of_ne n.key k b)

  -- The loop returns where it stops, given one round more than it goes past slots.
  pub probe-Stops :
      (fuel d : ℕ) (h : Hash V) (k : ℤ) (s : ℕ) (r : Slot V)
      → d < fuel
      → Passes h k s d
      → Stops h k (walk h.size s d) r
      → probe fuel h k s ≡ ok r
  unfolding probe walk
  probe-Stops zero d h k s r lt p e = absurd (omega arith)
  probe-Stops (suc fuel) zero h k s r lt p e = visit-Stops h k s r _ e
  probe-Stops (suc fuel) (suc d) h k s r lt p e =
      visit-Blocks k s (slot h s) _ p.0
      ∙ probe-Stops fuel d h k ((s + 1) % h.size) r (omega arith) p.1 e

  visit-cases :
      (h : Hash V) (k : ℤ) (i : ℕ) (c : Option (HashNode V)) (rest : Outcome (Slot V)) (r : Slot V)
      → slot h i ≡ c
      → visit k i c rest ≡ ok r
      → (Blocks c k × (rest ≡ ok r)) ⊎ Stops h k i r
  visit-cases h k i none rest (hit j n) e v = cc
  visit-cases h k i none rest (vacant j) e v = inr (ground arith, e)
  visit-cases h k i (some m) rest (hit j n) e v = elim (Bool-cases (m.key ==ℤ k)) [
    | inl t ↦
        let key : m.key ≡ k = eq_of_beqℤ m.key k t in
        inr (ground arith, e ∙ ground arith, ground arith)
    | inr t ↦ inl (ne_of_beqℤ m.key k t, rw t at v)
  ]
  visit-cases h k i (some m) rest (vacant j) e v = elim (Bool-cases (m.key ==ℤ k)) [
    | inl t ↦ ground arith
    | inr t ↦ inl (ne_of_beqℤ m.key k t, rw t at v)
  ]

  abbrev pub Ends : ℕ → Hash V → ℤ → ℕ → Slot V → Type ℓ
  Ends fuel h k s r = (d : ℕ) × (d < fuel) × Passes h k s d × Stops h k (walk h.size s d) r

  -- If the loop returns, it stopped somewhere on its path.
  pub probe-inversion :
      (fuel : ℕ) (h : Hash V) (k : ℤ) (s : ℕ) (r : Slot V)
      → probe fuel h k s ≡ ok r
      → Ends fuel h k s r
  unfolding probe walk
  probe-inversion zero h k s r e = cc
  probe-inversion (suc fuel) h k s r e =
      elim (visit-cases h k s (slot h s) (probe fuel h k ((s + 1) % h.size)) r refl e) [
        | inr stop ↦ (0, omega arith, tt, stop)
        | inl (b, more) ↦
            let (d, lt, p, stop) = probe-inversion fuel h k ((s + 1) % h.size) r more in
            (suc d, omega arith, (b, p), stop)
      ]

  probe-step :
      (fuel : ℕ) (h : Hash V) (k : ℤ) (s : ℕ) (c : Option (HashNode V))
      → slot h s ≡ c
      → ((r : Slot V) × (probe (suc fuel) h k s ≡ ok r))
        ⊎ (Blocks c k × (probe (suc fuel) h k s ≡ probe fuel h k ((s + 1) % h.size)))
  unfolding probe
  probe-step fuel h k s none e = inl (vacant s, rw e)
  probe-step fuel h k s (some m) e = elim (Bool-cases (m.key ==ℤ k)) [
    | inl t ↦ inl (hit s m, rw (e, visit, t) refl)
    | inr t ↦ inr (ne_of_beqℤ m.key k t, rw (e, visit, t) refl)
  ]

  -- With an empty slot among the first `fuel` of its path the loop returns.
  pub probe-returns :
      (fuel d : ℕ) (h : Hash V) (k : ℤ) (s : ℕ)
      → d < fuel
      → slot h (walk h.size s d) ≡ none
      → (r : Slot V) × (probe fuel h k s ≡ ok r)
  unfolding walk
  probe-returns zero d h k s lt e = absurd (omega arith)
  probe-returns (suc fuel) zero h k s lt e = elim (probe-step fuel h k s (slot h s) refl) [
    | inl done ↦ done
    | inr (b, more) ↦ absurd (rw e at b)
  ]
  probe-returns (suc fuel) (suc d) h k s lt e = elim (probe-step fuel h k s (slot h s) refl) [
    | inl done ↦ done
    | inr (b, more) ↦
        let (r, done) = probe-returns fuel d h k ((s + 1) % h.size) (omega arith) e in
        (r, more ∙ done)
  ]

  -- Where every slot blocks the key, no number of rounds is enough.
  pub probe_diverges :
      (fuel : ℕ) (h : Hash V) (k : ℤ) (s : ℕ)
      → 0 < h.size
      → ((i : ℕ) → i < h.size → Blocks (slot h i) k)
      → s < h.size
      → probe fuel h k s ≡ out_of_fuel
  unfolding probe
  probe_diverges zero h k s pos full lt = refl
  probe_diverges (suc fuel) h k s pos full lt =
      visit-Blocks k s (slot h s) _ (full s lt)
      ∙ probe_diverges fuel h k ((s + 1) % h.size) pos full (mod-lt (s + 1) pos)

-- The path visits every index.
walk-eq-mod : (n s d : ℕ) → s < n → walk n s d ≡ (s + d) % n
unfolding walk
walk-eq-mod n s zero lt = sym (mod-eq_of_lt {n = s + 0} {m = n} (omega arith) ∙ add-zero s)
walk-eq-mod n s (suc d) lt =
    walk-eq-mod n ((s + 1) % n) d (mod-lt (s + 1) (omega arith))
    ∙ mod-add-mod (s + 1) n d
    ∙ ap (λ (m : ℕ). m % n) (omega arith)

le_total : (a b : ℕ) → (a ≤ b) ⊎ (b ≤ a)
le_total a b = omega arith

pub walk_covers : (n s j : ℕ) → s < n → j < n → (d : ℕ) × (d < n) × (walk n s d ≡ j)
walk_covers n s j hs hj = elim (le_total s j) [
  | inl le ↦ (
    j - s,
    omega arith,
    walk-eq-mod n s (j - s) hs ∙ ap (λ (m : ℕ). m % n) (omega arith) ∙ mod-eq_of_lt hj,
  )
  | inr le ↦ elim (ℕ-cases s j) [
    | inl e ↦ (
      0,
      omega arith,
      walk-eq-mod n s 0 hs ∙ ap (λ (m : ℕ). m % n) (omega arith) ∙ mod-eq_of_lt hj,
    )
    | inr ne ↦ (
      j + n - s,
      omega arith,
      walk-eq-mod n s (j + n - s) hs
          ∙ ap (λ (m : ℕ). m % n) (omega arith)
          ∙ add-mod_right j n
          ∙ mod-eq_of_lt hj,
    )
  ]
]

pub walk-lt : (n s d : ℕ) → s < n → walk n s d < n
unfolding walk
walk-lt n s zero lt = lt
walk-lt n s (suc d) lt = walk-lt n ((s + 1) % n) d (mod-lt (s + 1) (omega arith))
