-- ===== src/Store/HashTable/Delete.antt =====
-- delete_hash_item clears one slot and leaves no mark behind: what that keeps, what it breaks, and
-- the loop on a table with no empty slot.
use legacy_point_monitor.Common.{
  List, [], ◌∷◌, ℕ, zero, suc, ◌+◌, ◌%◌, ◌<◌, ◌≡◌, ◌≢◌, refl, sym, ap, ◌∙◌, Option, none, some,
  true, eq_of_some, arith, length, get_or, get_or-set_self, get_or-set_ne, beq_of_ne,
}
use legacy_point_monitor.Common.Int.{ℤ}
use legacy_point_monitor.Common.Outcome.{ok, out_of_fuel, first_returns, eq_of_ok}
use legacy_point_monitor.Store.HashTable.{
  HashNode, Hash, Slot, probe, hit, vacant, slot, get_hash_index, locate, get_hash_item, put_at,
  node_of, delete_hash_item, insert_hash_item,
}
use legacy_point_monitor.Store.HashTable.Probe.{walk, Blocks, Passes, probe-Stops, probe_diverges}
use legacy_point_monitor.Store.HashTable.Table.{
  IsTable, vacancies, slot-lt, locate-slot, locate-hit, get_hash_index-lt,
}

module _ {ℓ} {V : Type ℓ} where
  Passes-cleared :
      (h : Hash V) (i : ℕ) (k : ℤ) (s d : ℕ)
      → ((j : ℕ) → Blocks (slot h j) k → i ≢ j)
      → Passes h k s d
      → Passes (put_at h i none) k s d
  Passes-cleared h i k s zero apart p = tt
  Passes-cleared h i k s (suc d) apart p = (
    rw (get_or-set_ne h.hash_array i s none none (apart s p.0)) p.0,
    Passes-cleared h i k ((s + 1) % h.size) d apart p.1,
  )

  -- The deletion of the key of `n` hides the node `m` of the key `b`, which stays in the array.
  abbrev pub Loses : Hash V → ℤ → HashNode V → HashNode V → Type ℓ
  Loses h b n m =
      (h' : Hash V) × (j : ℕ) × (delete_hash_item h n.key ≡ ok (true, h'))
      × (slot h' j ≡ some m)
      × (m.key ≡ b)
      × (get_hash_item h' b ≡ ok none)

  -- On the table the loop for `k` never ends, and none of the three functions returns.
  abbrev pub Diverges : Hash V → ℤ → Type ℓ
  Diverges h k =
      ((fuel : ℕ) → probe fuel h k (get_hash_index h k) ≡ out_of_fuel)
      × (get_hash_item h k ≡ out_of_fuel)
      × ((v : V) (m : ℕ) → insert_hash_item h k v m ≡ out_of_fuel)
      × (delete_hash_item h k ≡ out_of_fuel)

  module _ {h : Hash V} (t : IsTable h) where
    -- The table after the deletion of the node `n` at index `i`.
    cleared_self :
        (i : ℕ) (n : HashNode V)
        → slot h i ≡ some n
        → get_hash_item (put_at h i none) n.key ≡ ok none
    unfolding get_hash_item locate get_hash_index
    cleared_self i n e =
        let (d, lt, p, there) = t.placed i n e in
        let apart : (j : ℕ) → Blocks (slot h j) n.key → i ≢ j =
          λ j b same. let b' : Blocks (some n) n.key = rw (← same, e) at b in b' refl in
        let empty = get_or-set_self h.hash_array i none none (slot-lt h.hash_array i n e) in
        let run =
          probe-Stops h.size d (put_at h i none) n.key _ (vacant i) lt
            (Passes-cleared h i n.key _ d apart p)
            (sym there, ap (slot (put_at h i none)) there ∙ empty) in
        rw (beq_of_ne h.size 0 (omega (arith, t.nonempty)), run) refl

    -- The deleted key is gone, whatever else the table holds.
    pub get-delete :
        (k : ℤ) (n : HashNode V)
        → get_hash_item h k ≡ ok (some n)
        → (h' : Hash V) × (delete_hash_item h k ≡ ok (true, h')) × (get_hash_item h' k ≡ ok none)
    unfolding delete_hash_item get_hash_item
    get-delete k n e =
        let (r, run, got) = first_returns (locate h k) (λ s. ok (node_of s)) e in
        by_slot r run (eq_of_ok _ _ got)
      where
        by_slot :
            (r : Slot V)
            → locate h k ≡ ok r
            → node_of r ≡ some n
            → (h' : Hash V) × (delete_hash_item h k ≡ ok (true, h'))
              × (get_hash_item h' k ≡ ok none)
        by_slot (vacant i) run got = cc
        by_slot (hit i m) run got =
            let (there, key) = locate-hit t k i m run in
            (put_at h i none, rw run refl, rw key at (cleared_self i m there))

    -- On a well-formed table, deleting the key that stands at the index of another key b, where b
    -- is stored elsewhere, makes get_hash_item return NULL for b, although the node of b is still
    -- in the array.
    pub delete-Loses :
        (b : ℤ) (n m : HashNode V)
        → slot h (get_hash_index h b) ≡ some n
        → n.key ≢ b
        → get_hash_item h b ≡ ok (some m)
        → Loses h b n m
    unfolding delete_hash_item get_hash_item locate get_hash_index walk
    delete-Loses b n m e ne got =
        let (r, run, back) = first_returns (locate h b) (λ s. ok (node_of s)) got in
        let (j, there, key) = by_slot r run (eq_of_ok _ _ back) in
        let apart : get_hash_index h b ≢ j = λ same. ne (
          ap (λ (x : HashNode V). x.key) (eq_of_some n m (sym e ∙ ap (slot h) same ∙ there))
          ∙ key) in
        let empty =
          get_or-set_self h.hash_array (get_hash_index h b) none none
            (slot-lt h.hash_array _ n e) in
        let lost =
          probe-Stops h.size 0 (put_at h (get_hash_index h b) none) b _ (vacant _) t.nonempty tt
            (refl, empty) in
        (
          put_at h (get_hash_index h b) none,
          j,
          rw (locate-slot t _ n e) refl,
          get_or-set_ne h.hash_array _ j none none apart ∙ there,
          key,
          rw (beq_of_ne h.size 0 (omega (arith, t.nonempty)), lost) refl,
        )
      where
        by_slot :
            (r : Slot V)
            → locate h b ≡ ok r
            → node_of r ≡ some m
            → (j : ℕ) × (slot h j ≡ some m) × (m.key ≡ b)
        by_slot (vacant i) run same = cc
        by_slot (hit i x) run same =
            let (there, key) = locate-hit t b i x run in
            let e' : x ≡ m = eq_of_some x m same in
            (i, there ∙ same, ap (λ (y : HashNode V). y.key) (sym e') ∙ key)

  occupied :
      (slots : List (Option (HashNode V))) (i : ℕ)
      → vacancies slots ≡ 0
      → i < length slots
      → (n : HashNode V) × (get_or slots i none ≡ some n)
  unfolding vacancies
  occupied [] i full lt = elim lt [ ]
  occupied (none ∷ slots) i full lt = absurd (omega arith)
  occupied (some n ∷ slots) zero full lt = (n, refl)
  occupied (some n ∷ slots) (suc i) full lt = occupied slots i full (omega arith)

  -- On a table with no empty slot, for a key that is not in it, the probe loop does not end in any
  -- number of rounds, and get_hash_item, insert_hash_item and delete_hash_item do not return.
  pub full-Diverges :
      (h : Hash V) (k : ℤ)
      → 0 < h.size
      → length h.hash_array ≡ h.size
      → vacancies h.hash_array ≡ 0
      → ((i : ℕ) (n : HashNode V) → slot h i ≡ some n → n.key ≢ k)
      → Diverges h k
  unfolding get_hash_item insert_hash_item delete_hash_item locate
  full-Diverges h k pos width full absent =
      let block : (i : ℕ) → i < h.size → Blocks (slot h i) k =
        λ i lt. let (n, e) = occupied h.hash_array i full (omega arith) in rw e (absent i n e) in
      let spin = λ (fuel : ℕ). probe_diverges fuel h k _ pos block (get_hash_index-lt h k pos) in
      let some_slots = beq_of_ne h.size 0 (omega arith) in
      (
        spin,
        rw (some_slots, spin h.size) refl,
        λ v m. rw (some_slots, spin h.size) refl,
        rw (some_slots, spin h.size) refl,
      )
