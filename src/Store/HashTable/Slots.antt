-- ===== src/Store/HashTable/Slots.antt =====
-- The slots of a table: which of them a key leads to, and a table with one node.
use legacy_point_monitor.Common.{
  ℕ, zero, suc, ◌≡◌, refl, sym, ◌∙◌, Option, none, some, List, [], ◌∷◌, get_or, arith, eq_of_some,
}
use legacy_point_monitor.Common.Int.{ℤ}
use legacy_point_monitor.Common.Outcome.{ok, eq_of_ok, first_returns}
use legacy_point_monitor.Store.HashTable.{
  HashNode, Hash, Slot, hit, vacant, slot, locate, node_of, get_hash_item, visit_all,
}
use legacy_point_monitor.Store.HashTable.Table.{IsTable, locate-slot, locate-hit}

module _ {ℓ} {V : Type ℓ} where
  -- The table's node under a key is the one that get_hash_item finds, and conversely.
  pub get-slot :
      {h : Hash V}
      → IsTable h
      → (i : ℕ) (n : HashNode V) → slot h i ≡ some n
      → get_hash_item h n.key ≡ ok (some n)
  unfolding get_hash_item
  get-slot t i n e = rw (locate-slot t i n e) refl

  pub slot-get :
      {h : Hash V}
      → IsTable h
      → (k : ℤ) (n : HashNode V) → get_hash_item h k ≡ ok (some n)
      → (i : ℕ) × (slot h i ≡ some n)
  unfolding get_hash_item
  slot-get {h} t k n e =
      let (r, run, got) = first_returns (locate h k) (λ s. ok (node_of s)) e in
      by_slot r run (eq_of_ok _ _ got)
    where
      by_slot :
          (r : Slot V) → locate h k ≡ ok r → node_of r ≡ some n → (i : ℕ) × (slot h i ≡ some n)
      by_slot (vacant i) run got = cc
      by_slot (hit i m) run got = (i, (locate-hit t k i m run).0 ∙ got)

  -- A node has one slot.
  pub one-slot :
      {h : Hash V}
      → IsTable h
      → (i j : ℕ) (n : HashNode V) → slot h i ≡ some n
      → slot h j ≡ some n
      → i ≡ j
  one-slot {h} t i j n here there =
      let both : ok (hit i n) ≡ ok (hit j n) =
        sym (locate-slot t i n here) ∙ locate-slot t j n there in
      cc

  -- A table with one node in it.
  visit-none :
      (slots : List (Option (HashNode V)))
      → ((i : ℕ) (m : HashNode V) → get_or slots i none ≡ some m → ⊥)
      → visit_all slots ≡ []
  unfolding visit_all
  visit-none [] empty = refl
  visit-none (some m ∷ slots) empty = absurd (empty 0 m refl)
  visit-none (none ∷ slots) empty = visit-none slots (λ i m e. empty (suc i) m e)

  pub visit-sole :
      (slots : List (Option (HashNode V))) (i : ℕ) (n : HashNode V)
      → get_or slots i none ≡ some n
      → ((j : ℕ) (m : HashNode V) → get_or slots j none ≡ some m → j ≡ i)
      → visit_all slots ≡ n ∷ []
  unfolding visit_all
  visit-sole [] i n e sole = cc
  visit-sole (some m ∷ slots) zero n e sole =
      rw (eq_of_some m n e, visit-none slots λ j q there. omega (arith, sole (suc j) q there)) refl
  visit-sole (some m ∷ slots) (suc i) n e sole = absurd (omega (arith, sole 0 m refl))
  visit-sole (none ∷ slots) zero n e sole = cc
  visit-sole (none ∷ slots) (suc i) n e sole =
      visit-sole slots i n e (λ j m there. omega (arith, sole (suc j) m there))
