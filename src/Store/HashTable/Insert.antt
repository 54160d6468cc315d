-- ===== src/Store/HashTable/Insert.antt =====
-- insert_hash_item: a table with room stays well formed, and reads as the map updated at the key.
use legacy_point_monitor.Common.{
  eq_of_some, ℕ, zero, suc, ◌+◌, ◌%◌, ◌<◌, ◌≤◌, ◌≡◌, ◌≢◌, refl, sym, ap, ◌∙◌, ℕ-cases, Bool-cases,
  inl, inr, none, some, arith, ◌⊎◌, length-set, get_or-set_self, get_or-set_ne, if◌then◌else◌,
}
use legacy_point_monitor.Common.Int.{ℤ, ◌==ℤ◌, eq_of_beqℤ, ne_of_beqℤ}
use legacy_point_monitor.Common.Outcome.{ok, eq_of_ok}
use legacy_point_monitor.Store.HashTable.{
  HashNode, Hash, Slot, hit, vacant, slot, get_hash_index, locate, get_hash_item, put_at, node_of,
  index_of, insert_hash_item,
}
use legacy_point_monitor.Store.HashTable.Probe.{Blocks, Passes, Stops}
use legacy_point_monitor.Store.HashTable.Table.{
  vacancies, IsTable, Reached, Stops-slot, vacancies-set, locate-Ends, locate-slot, locate-returns,
  locate_sound, locate-hit,
}

abbrev key_of {ℓ} : {V : Type ℓ} → HashNode V → ℤ
key_of n = n.key

not-Blocks {ℓ} :
    {V : Type ℓ} (h : Hash V) (k : ℤ) (i : ℕ) (r : Slot V) (q : ℤ)
    → Stops h k i r
    → Blocks (slot h (index_of r)) q
    → k ≢ q
not-Blocks h k i (hit j n) q (same, e, key) b s =
    let b' : Blocks (some n) q = rw (same, e) at b in b' (key ∙ s)
not-Blocks h k i (vacant j) q (same, e) b s = let b' : ⊥ = rw (same, e) at b in b'

module _ {ℓ} {V : Type ℓ} {h : Hash V} (t : IsTable h) (k : ℤ) (r : Slot V)
    (found : locate h k ≡ ok r) (v : V) (m : ℕ) where
  abbrev item : HashNode V
  item = record { key = k; size = m; value = v }

  abbrev written : Hash V
  written = put_at h (index_of r) (some item)

  slot-written_self : slot written (index_of r) ≡ some item
  slot-written_self =
      get_or-set_self h.hash_array (index_of r) (some item) none
        (omega (arith, locate_sound t k r found, t.width))

  slot-written_ne : (j : ℕ) → index_of r ≢ j → slot written j ≡ slot h j
  slot-written_ne j ne = get_or-set_ne h.hash_array (index_of r) j (some item) none ne

  -- What stood at the written slot blocks no key that the new node does not block.
  Blocks-self : (q : ℤ) → Blocks (slot h (index_of r)) q → k ≢ q
  Blocks-self q b = let (d, lt, p, stop) = locate-Ends t k r found in not-Blocks h k _ r q stop b

  Blocks-written : (q : ℤ) (p : ℕ) → Blocks (slot h p) q → Blocks (slot written p) q
  Blocks-written q p b = elim (ℕ-cases (index_of r) p) [
    | inl e ↦ rw (← e) (rw slot-written_self (Blocks-self q (rw (← e) at b)))
    | inr ne ↦ rw (slot-written_ne p ne) b
  ]

  Passes-written : (q : ℤ) (s d : ℕ) → Passes h q s d → Passes written q s d
  Passes-written q s zero p = tt
  Passes-written q s (suc d) p = (Blocks-written q s p.0, Passes-written q ((s + 1) % h.size) d p.1)

  Reached-written : (i : ℕ) (n : HashNode V) → Reached h i n → Reached written i n
  unfolding get_hash_index
  Reached-written i n (d, lt, p, there) = (d, lt, Passes-written n.key _ d p, there)

  Reached-self : Reached written (index_of r) item
  unfolding get_hash_index
  Reached-self =
      let (d, lt, p, stop) = locate-Ends t k r found in
      (d, lt, Passes-written k _ d p, sym (Stops-slot h k _ r stop).1)

  slot-written-cases :
      (i : ℕ) (n : HashNode V)
      → slot written i ≡ some n
      → ((index_of r ≡ i) × (n ≡ item)) ⊎ ((index_of r ≢ i) × (slot h i ≡ some n))
  slot-written-cases i n e = elim (ℕ-cases (index_of r) i) [
    | inl same ↦
        inl (same, eq_of_some _ _ (sym e ∙ ap (slot written) (sym same) ∙ slot-written_self))
    | inr ne ↦ inr (ne, sym (slot-written_ne i ne) ∙ e)
  ]

  pub written-IsTable : IsTable written
  written-IsTable = record {
    nonempty = t.nonempty;
    width = length-set h.hash_array (index_of r) (some item) ∙ t.width;
    placed = λ i n e. elim (slot-written-cases i n e) [
      | inl (same, new) ↦ rw (new, ← same) Reached-self
      | inr (ne, old) ↦ Reached-written i n (t.placed i n old)
    ];
  }

  pub written_self : locate written k ≡ ok (hit (index_of r) item)
  written_self = locate-slot written-IsTable (index_of r) item slot-written_self

  index-ne : (i : ℕ) (n : HashNode V) → slot h i ≡ some n → n.key ≢ k → index_of r ≢ i
  index-ne i n e other same =
      let b : Blocks (slot h (index_of r)) k = rw (same, e) other in Blocks-self k b refl

  -- Every other key reads as before, wherever its loop now ends.
  pub written-other :
      (q : ℤ) (a b : Slot V)
      → k ≢ q
      → locate h q ≡ ok a
      → locate written q ≡ ok b
      → node_of b ≡ node_of a
  written-other q (hit i n) b ne before after =
      let (there, key) = locate-hit t q i n before in
      let apart = index-ne i n there (λ e. ne (sym e ∙ key)) in
      let kept = locate-slot written-IsTable i n (slot-written_ne i apart ∙ there) in
      let again : ok (hit i n) ≡ ok b = sym kept ∙ ap (locate written) key ∙ after in
      ap node_of (eq_of_ok _ _ (sym again))
  written-other q (vacant i) (hit j n) ne before after =
      let (there, key) = locate-hit written-IsTable q j n after in
      elim (slot-written-cases j n there) [
        | inl (same, new) ↦ absurd (ne (sym (ap key_of new) ∙ key))
        | inr (apart, old) ↦
            let found = locate-slot t j n old in
            let again : ok (hit j n) ≡ ok (vacant i) = sym found ∙ ap (locate h) key ∙ before in
            ap node_of (eq_of_ok _ _ again)
      ]
  written-other q (vacant i) (vacant j) ne before after = refl

-- What an insertion of `v` under `k` comes to.
abbrev pub Inserts {ℓ} : {V : Type ℓ} → Hash V → ℤ → V → ℕ → Type ℓ
Inserts {V = V} h k v m =
    (h' : Hash V) × (insert_hash_item h k v m ≡ ok h')
    × IsTable h'
    × (vacancies h.hash_array ≤ vacancies h'.hash_array + 1)
    × ((q : ℤ)
        → get_hash_item h' q ≡ (
            if k ==ℤ q
            then ok (some (record { key = k; size = m; value = v }))
            else get_hash_item h q))

-- insert_hash_item on a well-formed table with two empty slots returns; the table stays well formed;
-- get_hash_item then returns the new node under the key, and what it returned before under any other.
pub get-insert {ℓ} :
    {V : Type ℓ} (h : Hash V) (k : ℤ) (v : V) (m : ℕ)
    → IsTable h
    → 1 < vacancies h.hash_array
    → Inserts h k v m
unfolding insert_hash_item get_hash_item
get-insert h k v m t room =
    let (r, run) = locate-returns t k (omega arith) in
    let less = vacancies-set h.hash_array (index_of r) (some (item t k r run v m)) in
    (
      written t k r run v m,
      rw run refl,
      written-IsTable t k r run v m,
      less,
      λ q. elim (Bool-cases (k ==ℤ q)) [
        | inl e ↦ rw e (rw (← eq_of_beqℤ k q e) (rw (written_self t k r run v m) refl))
        | inr e ↦
            let (a, before) = locate-returns t q (omega arith) in
            let (b, after) = locate-returns (written-IsTable t k r run v m) q (omega arith) in
            rw (e, before, after)
              (ap ok (written-other t k r run v m q a b (ne_of_beqℤ k q e) before after))
      ],
    )
