-- ===== src/Store/HashTable/Fill.antt =====
-- Any sequence of insertions: the table stands for a map.
use legacy_point_monitor.Common.{
  ◌<◌, ◌≡◌, refl, ◌∙◌, Option, some, List, [], ◌∷◌, length, arith, if◌then◌else◌, Bool-cases, inl,
  inr,
}
use legacy_point_monitor.Common.Int.{ℤ, ◌==ℤ◌}
use legacy_point_monitor.Common.Outcome.{Outcome, ok, ◌>>=◌}
use legacy_point_monitor.Store.HashTable.{HashNode, Hash, get_hash_item, insert_hash_item}
use legacy_point_monitor.Store.HashTable.Table.{vacancies, IsTable}
use legacy_point_monitor.Store.HashTable.Insert.{get-insert}

module _ {ℓ} {V : Type ℓ} where
  -- insert_hash_item for each key, value and size, in order.
  pub insert_all : List (HashNode V) → Hash V → Outcome (Hash V)
  insert_all [] h = ok h
  insert_all (n ∷ nodes) h = do h ← insert_hash_item h n.key n.value n.size; insert_all nodes h

  -- The last of the nodes with the key, `old` if there is none.
  pub latest : List (HashNode V) → ℤ → Option (HashNode V) → Option (HashNode V)
  latest [] q old = old
  latest (n ∷ nodes) q old = latest nodes q (if n.key ==ℤ q then some n else old)

  abbrev pub Fills : List (HashNode V) → Hash V → Type ℓ
  Fills nodes h =
      (h' : Hash V) × (insert_all nodes h ≡ ok h')
      × IsTable h'
      × ((q : ℤ) (old : Option (HashNode V))
          → get_hash_item h q ≡ ok old
          → get_hash_item h' q ≡ ok (latest nodes q old))

  -- A well-formed table with more empty slots than there are insertions to come takes all of them:
  -- the calls of insert_hash_item return, the table stays well formed, and get_hash_item returns
  -- under each key the last node that was inserted under it, and what it returned before if there
  -- was none.
  pub insert_all-Fills :
      (nodes : List (HashNode V)) (h : Hash V)
      → IsTable h
      → length nodes < vacancies h.hash_array
      → Fills nodes h
  unfolding insert_all latest
  insert_all-Fills [] h t room = (h, refl, t, λ q old e. e)
  insert_all-Fills (n ∷ nodes) h t room =
      let (h1, run, t1, less, reads) = get-insert h n.key n.value n.size t (omega arith) in
      let (h2, ran, t2, later) = insert_all-Fills nodes h1 t1 (omega arith) in
      (
        h2,
        rw run ran,
        t2,
        λ q old e. later q (if n.key ==ℤ q then some n else old) (reads q ∙ chosen q old e),
      )
    where
      chosen :
          (q : ℤ) (old : Option (HashNode V))
          → get_hash_item h q ≡ ok old
          → (if n.key ==ℤ q then ok (some n) else get_hash_item h q)
            ≡ ok (if n.key ==ℤ q then some n else old)
      chosen q old e = elim (Bool-cases (n.key ==ℤ q)) [
        | inl same ↦ rw same refl
        | inr other ↦ rw other e
      ]
