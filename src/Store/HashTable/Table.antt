-- ===== src/Store/HashTable/Table.antt =====
-- Well-formed tables: every node can be reached from its key's own index past nodes with other keys.
use native.Mathlib.Nat.{mod-lt}
use legacy_point_monitor.Common.{
  ◌==◌, false, ℕ, zero, suc, ◌+◌, ◌<◌, ◌≤◌, ◌≡◌, refl, sym, ap, ◌∙◌, Option, none, some, arith,
  List, [], ◌∷◌, length, get_or, set, replicate, length-replicate, get_or-replicate,
}
use legacy_point_monitor.Common.Int.{ℤ}
use legacy_point_monitor.Common.Outcome.{ok}
use legacy_point_monitor.Store.HashTable.{
  HashNode, Hash, Slot, hit, vacant, slot, probe, new_hash, get_hash_index, locate, get_hash_item,
  node_of, index_of,
}
use legacy_point_monitor.Store.HashTable.Probe.{
  walk, Passes, Stops, Ends, probe-Stops, probe-inversion, probe-returns, walk_covers, walk-lt,
}

-- How many slots hold NULL.
unfoldable pub vacancies {ℓ} : {V : Type ℓ} → List (Option (HashNode V)) → ℕ
vacancies [] = 0
vacancies (none ∷ slots) = vacancies slots + 1
vacancies (some n ∷ slots) = vacancies slots

pub vacancies-replicate {ℓ} : (V : Type ℓ) (n : ℕ) → vacancies {V = V} (replicate n none) ≡ n
unfolding vacancies
vacancies-replicate V zero = refl
vacancies-replicate V (suc n) = omega (arith, vacancies-replicate V n)

module _ {ℓ} {V : Type ℓ} where
  -- A node is found by the loop for its key, past `d` nodes with other keys.
  abbrev pub Reached : Hash V → ℕ → HashNode V → Type 0
  Reached h i n =
      (d : ℕ) × (d < h.size)
      × Passes h n.key (get_hash_index h n.key) d
      × (walk h.size (get_hash_index h n.key) d ≡ i)

  pub record IsTable (h : Hash V) : Type ℓ where
    pub nonempty : 0 < h.size
    pub width : length h.hash_array ≡ h.size
    pub placed : (i : ℕ) (n : HashNode V) → slot h i ≡ some n → Reached h i n

  pub slot-lt :
      (slots : List (Option (HashNode V))) (i : ℕ) (n : HashNode V)
      → get_or slots i none ≡ some n
      → i < length slots
  slot-lt [] i n e = cc
  slot-lt (c ∷ slots) zero n e = omega arith
  slot-lt (c ∷ slots) (suc i) n e = omega (arith, slot-lt slots i n e)

  pub vacancies-set :
      (slots : List (Option (HashNode V))) (i : ℕ) (c : Option (HashNode V))
      → vacancies slots ≤ vacancies (set slots i c) + 1
  unfolding vacancies
  vacancies-set [] i c = omega arith
  vacancies-set (none ∷ slots) zero none = omega arith
  vacancies-set (none ∷ slots) zero (some n) = omega arith
  vacancies-set (some m ∷ slots) zero none = omega arith
  vacancies-set (some m ∷ slots) zero (some n) = omega arith
  vacancies-set (none ∷ slots) (suc i) c = omega (arith, vacancies-set slots i c)
  vacancies-set (some m ∷ slots) (suc i) c = omega (arith, vacancies-set slots i c)

  pub vacant_slot :
      (slots : List (Option (HashNode V)))
      → 0 < vacancies slots
      → (j : ℕ) × (j < length slots) × (get_or slots j none ≡ none)
  unfolding vacancies
  vacant_slot [] e = absurd (omega arith)
  vacant_slot (none ∷ slots) e = (0, omega arith, refl)
  vacant_slot (some n ∷ slots) e =
      let (j, lt, empty) = vacant_slot slots e in (suc j, omega arith, empty)

  pub get_hash_index-lt : (h : Hash V) (k : ℤ) → 0 < h.size → get_hash_index h k < h.size
  unfolding get_hash_index
  get_hash_index-lt h k pos = mod-lt _ pos

  pub new_hash-IsTable : (n : ℕ) → 0 < n → IsTable (new_hash {V = V} n)
  unfolding new_hash
  new_hash-IsTable n pos = record {
    nonempty = pos;
    width = length-replicate n none;
    placed = λ i m e. absurd (none≢some (sym (get_or-replicate n i none) ∙ e));
  }
    where
      none≢some : {m : HashNode V} → none ≡ some m → ⊥
      none≢some e = cc

  -- Nothing is found in a new table.
  pub get-new_hash : (n : ℕ) (k : ℤ) → get_hash_item (new_hash {V = V} (suc n)) k ≡ ok none
  unfolding get_hash_item locate probe new_hash
  get-new_hash n k =
      let wide : (suc n == 0) ≡ false = ground arith in
      let blank =
        get_or-replicate {A = Option (HashNode V)} (suc n)
          (get_hash_index {V = V} (new_hash (suc n)) k) none in
      rw (wide, blank) refl

  pub Stops-slot :
      (h : Hash V) (k : ℤ) (i : ℕ) (r : Slot V)
      → Stops h k i r
      → (slot h i ≡ node_of r) × (index_of r ≡ i)
  Stops-slot h k i (hit j n) (same, e, key) = (e, same)
  Stops-slot h k i (vacant j) (same, e) = (e, same)

  module _ {h : Hash V} (t : IsTable h) where
    pub locate-probe : (k : ℤ) → locate h k ≡ probe h.size h k (get_hash_index h k)
    unfolding locate
    locate-probe k = let pos = t.nonempty in ground arith

    pub locate-Ends :
        (k : ℤ) (r : Slot V) → locate h k ≡ ok r → Ends h.size h k (get_hash_index h k) r
    locate-Ends k r e = probe-inversion h.size h k _ r (sym (locate-probe k) ∙ e)

    -- The loop finds every node of the table under its key.
    pub locate-slot : (i : ℕ) (n : HashNode V) → slot h i ≡ some n → locate h n.key ≡ ok (hit i n)
    locate-slot i n e =
        let (d, lt, p, there) = t.placed i n e in
        locate-probe n.key
        ∙ probe-Stops h.size d h n.key _ (hit i n) lt p (sym there, ap (slot h) there ∙ e, refl)

    -- The loop returns as long as one slot is empty.
    pub locate-returns : (k : ℤ) → 0 < vacancies h.hash_array → (r : Slot V) × (locate h k ≡ ok r)
    locate-returns k room =
        let (j, lt, empty) = vacant_slot h.hash_array room in
        let (d, few, there) =
          walk_covers h.size (get_hash_index h k) j (get_hash_index-lt h k t.nonempty)
            (omega (arith, t.width)) in
        let (r, run) =
          probe-returns h.size d h k (get_hash_index h k) few (ap (slot h) there ∙ empty) in
        (r, locate-probe k ∙ run)

    -- A hit is a node of the table with the key; a vacant end is an empty slot.
    pub locate_sound :
        (k : ℤ) (r : Slot V)
        → locate h k ≡ ok r
        → (slot h (index_of r) ≡ node_of r) × (index_of r < h.size)
    locate_sound k r e =
        let (d, lt, p, stop) = locate-Ends k r e in
        let (there, same) = Stops-slot h k _ r stop in
        (
          ap (slot h) same ∙ there,
          let below = walk-lt h.size _ d (get_hash_index-lt h k t.nonempty) in rw same below,
        )

    pub locate-hit :
        (k : ℤ) (i : ℕ) (n : HashNode V)
        → locate h k ≡ ok (hit i n)
        → (slot h i ≡ some n) × (n.key ≡ k)
    locate-hit k i n e =
        let (d, lt, p, stop) = locate-Ends k (hit i n) e in ((locate_sound k (hit i n) e).0, stop.2)
