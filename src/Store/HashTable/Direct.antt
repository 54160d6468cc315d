-- ===== src/Store/HashTable/Direct.antt =====
-- Tables whose keys have an index each, as the table of signal handlers: every operation works on the
-- key's own slot, and deletion is sound.
use legacy_point_monitor.Common.{
  ℕ, ◌<◌, ◌≡◌, ◌≢◌, refl, sym, ap, ◌∙◌, ℕ-cases, Bool-cases, inl, inr, Option, none, some, Bool,
  true, false, eq_of_some, arith, ◌⊎◌, length, length-set, get_or-set_self, get_or-set_ne,
  if◌then◌else◌,
}
use legacy_point_monitor.Common.Int.{ℤ, ◌==ℤ◌, eq_of_beqℤ, ne_of_beqℤ}
use legacy_point_monitor.Common.Outcome.{ok, eq_of_ok, first_returns}
use legacy_point_monitor.Store.HashTable.{
  HashNode, Hash, Slot, hit, vacant, slot, get_hash_index, locate, get_hash_item, put_at, node_of,
  index_of, delete_hash_item, clear, insert_hash_item,
}
use legacy_point_monitor.Store.HashTable.Probe.{walk, probe-Stops}
use legacy_point_monitor.Store.HashTable.Table.{IsTable, locate-probe, get_hash_index-lt}

module _ {ℓ} {V : Type ℓ} where
  -- Every node stands at its key's own index, and no two keys of `Allowed` share an index.
  pub record IsDirect (Allowed : ℤ → Type 0) (h : Hash V) : Type ℓ where
    pub nonempty : 0 < h.size
    pub width : length h.hash_array ≡ h.size
    pub home : (i : ℕ) (n : HashNode V) → slot h i ≡ some n → get_hash_index h n.key ≡ i
    pub allowed : (i : ℕ) (n : HashNode V) → slot h i ≡ some n → Allowed n.key
    pub apart : (a b : ℤ) → Allowed a → Allowed b → get_hash_index h a ≡ get_hash_index h b → a ≡ b

  module _ {Allowed : ℤ → Type 0} {h : Hash V} (t : IsDirect Allowed h) where
    pub direct-IsTable : IsTable h
    unfolding walk
    direct-IsTable = record {
      nonempty = t.nonempty;
      width = t.width;
      placed = λ i n e. (0, t.nonempty, tt, t.home i n e);
    }

    -- What the loop for an allowed key finds: the contents of the key's own slot.
    abbrev found_at : ℕ → Option (HashNode V) → Slot V
    found_at i none = vacant i
    found_at i (some n) = hit i n

    locate-cases :
        (k : ℤ) (c : Option (HashNode V))
        → Allowed k
        → slot h (get_hash_index h k) ≡ c
        → locate h k ≡ ok (found_at (get_hash_index h k) c)
    unfolding walk
    locate-cases k none a e =
        locate-probe direct-IsTable k
        ∙ probe-Stops h.size 0 h k _ (vacant _) t.nonempty tt (refl, e)
    locate-cases k (some n) a e =
        let key : n.key ≡ k = t.apart n.key k (t.allowed _ n e) a (t.home _ n e) in
        locate-probe direct-IsTable k
        ∙ probe-Stops h.size 0 h k _ (hit _ n) t.nonempty tt (refl, e, key)

    pub locate-direct :
        (k : ℤ)
        → Allowed k
        → locate h k ≡ ok (found_at (get_hash_index h k) (slot h (get_hash_index h k)))
    locate-direct k a = locate-cases k _ a refl

    pub get-direct : (k : ℤ) → Allowed k → get_hash_item h k ≡ ok (slot h (get_hash_index h k))
    unfolding get_hash_item
    get-direct k a = rw (locate-direct k a) (back (slot h (get_hash_index h k)))
      where
        back : (c : Option (HashNode V)) → ok (node_of (found_at (get_hash_index h k) c)) ≡ ok c
        back none = refl
        back (some n) = refl

    -- A write at the own index of an allowed key.
    module _ (k : ℤ) (a : Allowed k) (c : Option (HashNode V))
        (fits : (n : HashNode V) → c ≡ some n → n.key ≡ k) where
      abbrev stored : Hash V
      stored = put_at h (get_hash_index h k) c

      slot-stored_self : slot stored (get_hash_index h k) ≡ c
      slot-stored_self =
          get_or-set_self h.hash_array _ c none
            (omega (arith, t.width, get_hash_index-lt h k t.nonempty))

      slot-stored_ne : (j : ℕ) → get_hash_index h k ≢ j → slot stored j ≡ slot h j
      slot-stored_ne j ne = get_or-set_ne h.hash_array _ j c none ne

      stored-cases :
          (i : ℕ) (n : HashNode V)
          → slot stored i ≡ some n
          → ((get_hash_index h k ≡ i) × (n.key ≡ k)) ⊎ (slot h i ≡ some n)
      stored-cases i n e = elim (ℕ-cases (get_hash_index h k) i) [
        | inl same ↦ inl (same, fits n (sym slot-stored_self ∙ ap (slot stored) same ∙ e))
        | inr ne ↦ inr (sym (slot-stored_ne i ne) ∙ e)
      ]

      pub stored-IsDirect : IsDirect Allowed stored
      unfolding get_hash_index
      stored-IsDirect = record {
        nonempty = t.nonempty;
        width = length-set h.hash_array _ c ∙ t.width;
        home = λ i n e. elim (stored-cases i n e) [
          | inl (same, key) ↦ ap (get_hash_index h) key ∙ same
          | inr old ↦ t.home i n old
        ];
        allowed = λ i n e. elim (stored-cases i n e) [
          | inl (same, key) ↦ rw key a
          | inr old ↦ t.allowed i n old
        ];
        apart = t.apart;
      }

      pub slot-stored :
          (q : ℤ)
          → Allowed q
          → slot stored (get_hash_index h q) ≡ (if k ==ℤ q then c else slot h (get_hash_index h q))
      slot-stored q b = elim (Bool-cases (k ==ℤ q)) [
        | inl e ↦
            rw e (
              ap (λ x. slot stored (get_hash_index h x)) (sym (eq_of_beqℤ k q e))
              ∙ slot-stored_self)
        | inr e ↦ rw e (slot-stored_ne _ (λ s. ne_of_beqℤ k q e (t.apart k q a b s)))
      ]

  abbrev pub Lookup : (ℤ → Type 0) → Hash V → Hash V → ℤ → Option (HashNode V) → Type ℓ
  Lookup Allowed h h' k c =
      (q : ℤ) → Allowed q → get_hash_item h' q ≡ (if k ==ℤ q then ok c else get_hash_item h q)

  abbrev pub is_some : Option (HashNode V) → Bool
  is_some none = false
  is_some (some n) = true

  -- What an insertion of `v` under `k` comes to, on allowed keys.
  abbrev pub InsertsDirect : (ℤ → Type 0) → Hash V → ℤ → V → ℕ → Type ℓ
  InsertsDirect Allowed h k v m =
      (h' : Hash V) × (insert_hash_item h k v m ≡ ok h')
      × IsDirect Allowed h'
      × Lookup Allowed h h' k (some (record { key = k; size = m; value = v }))

  -- What a deletion of `k` comes to, on allowed keys.
  abbrev pub DeletesDirect : (ℤ → Type 0) → Hash V → ℤ → Type ℓ
  DeletesDirect Allowed h k =
      (h' : Hash V) × (delete_hash_item h k ≡ ok (is_some (slot h (get_hash_index h k)), h'))
      × IsDirect Allowed h'
      × Lookup Allowed h h' k none

  module _ {Allowed : ℤ → Type 0} {h : Hash V} (t : IsDirect Allowed h) (k : ℤ)
      (a : Allowed k) where
    Lookup-stored :
        (c : Option (HashNode V)) (fits : (n : HashNode V) → c ≡ some n → n.key ≡ k)
        → Lookup Allowed h (put_at h (get_hash_index h k) c) k c
    unfolding get_hash_index
    Lookup-stored c fits q b =
        get-direct (stored-IsDirect t k a c fits) q b
        ∙ ap ok (slot-stored t k a c fits q b)
        ∙ split (k ==ℤ q)
      where
        split :
            (x : Bool)
            → ok (if x then c else slot h (get_hash_index h q))
              ≡ (if x then ok c else get_hash_item h q)
        split true = refl
        split false = sym (get-direct t q b)

    index-found :
        (c : Option (HashNode V))
        → index_of (found_at t (get_hash_index h k) c) ≡ get_hash_index h k
    index-found none = refl
    index-found (some n) = refl

    -- insert_hash_item always returns, also on a full table, and the table reads as the map updated
    -- at the key.
    pub insert-direct : (v : V) (m : ℕ) → InsertsDirect Allowed h k v m
    unfolding insert_hash_item
    insert-direct v m =
        let c : Option (HashNode V) = some (record { key = k; size = m; value = v }) in
        let fits : (n : HashNode V) → c ≡ some n → n.key ≡ k =
          λ n e. ap (λ (x : HashNode V). x.key) (sym (eq_of_some _ _ e)) in
        (
          put_at h (get_hash_index h k) c,
          rw (locate-direct t k a) (rw (index-found (slot h (get_hash_index h k))) refl),
          stored-IsDirect t k a c fits,
          Lookup-stored c fits,
        )

    -- delete_hash_item says whether the key was there, and the table reads as the map without it.
    pub delete-direct : DeletesDirect Allowed h k
    unfolding delete_hash_item
    delete-direct = by_slot (slot h (get_hash_index h k)) refl
      where
        by_slot :
            (c : Option (HashNode V)) → slot h (get_hash_index h k) ≡ c → DeletesDirect Allowed h k
        by_slot none e = (
          h,
          rw (locate-direct t k a, e) refl,
          t,
          λ q b. elim (Bool-cases (k ==ℤ q)) [
            | inl same ↦ rw (same, ← eq_of_beqℤ k q same) (get-direct t k a ∙ ap ok e)
            | inr other ↦ rw other
          ],
        )
        by_slot (some n) e = (
          put_at h (get_hash_index h k) none,
          rw (locate-direct t k a, e) refl,
          stored-IsDirect t k a none (λ n e. cc),
          Lookup-stored none (λ n e. cc),
        )

  -- No operation changes the number of slots.
  pub size-insert :
      (h h' : Hash V) (k : ℤ) (v : V) (m : ℕ) → insert_hash_item h k v m ≡ ok h' → h'.size ≡ h.size
  unfolding insert_hash_item
  size-insert h h' k v m e =
      let (s, run, back) = first_returns (locate h k) _ e in
      ap (λ (x : Hash V). x.size) (sym (eq_of_ok _ _ back))

  size-clear : (h : Hash V) (s : Slot V) → (clear h s).1.size ≡ h.size
  size-clear h (hit i n) = refl
  size-clear h (vacant i) = refl

  pub size-delete :
      (h h' : Hash V) (k : ℤ) (b : Bool) → delete_hash_item h k ≡ ok (b, h') → h'.size ≡ h.size
  unfolding delete_hash_item
  size-delete h h' k b e =
      let (s, run, back) = first_returns (locate h k) _ e in
      ap (λ (x : Bool × Hash V). x.1.size) (sym (eq_of_ok _ _ back)) ∙ size-clear h s
