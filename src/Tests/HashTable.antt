-- ===== src/Tests/HashTable.antt =====
-- Small hash tables: keys that share an index, a deletion that hides a key, and a full table.
use legacy_point_monitor.Common.{
  ℕ, zero, suc, ◌≡◌, ◌≢◌, refl, none, some, [], ◌∷◌, arith, eq_of_some,
}
use legacy_point_monitor.Common.Int.{ℤ, pos, negsuc, to_u32}
use legacy_point_monitor.Common.Outcome.{ok, ◌>>=◌}
use legacy_point_monitor.Store.HashTable.{
  HashNode, Hash, slot, new_hash, get_hash_index, get_hash_item, insert_hash_item, iterate_hash,
}
use legacy_point_monitor.Store.HashTable.Probe.{walk}
use legacy_point_monitor.Store.HashTable.Table.{vacancies, Reached, IsTable, new_hash-IsTable}
use legacy_point_monitor.Store.HashTable.Fill.{Fills, insert_all-Fills}
use legacy_point_monitor.Store.HashTable.Delete.{Loses, delete-Loses, Diverges, full-Diverges}

abbrev pub entry : ℤ → ℕ → HashNode ℕ
entry k v = record { key = k; size = 8; value = v }

-- Three slots. The keys 1, 4 and -3 have the same index.
abbrev pub pair : Hash ℕ
pair = record {
  size = 3;
  hash_array = none ∷ some (entry (pos 1) 10) ∷ some (entry (pos 4) 40) ∷ [];
}

pair_built :
    (do h ← insert_hash_item (new_hash 3) (pos 1) 10 8; insert_hash_item h (pos 4) 40 8) ≡ ok pair
unfolding insert_hash_item new_hash to_u32
pair_built = refl

pub pair_found : get_hash_item pair (pos 4) ≡ ok (some (entry (pos 4) 40))
unfolding get_hash_item to_u32
pair_found = refl

negative_key : get_hash_index pair (negsuc 2) ≡ 1
unfolding get_hash_index to_u32
negative_key = refl

pair_placed : (i : ℕ) (n : HashNode ℕ) → slot pair i ≡ some n → Reached pair i n
unfolding get_hash_index to_u32 walk
pair_placed zero n e = cc
pair_placed (suc zero) n e = rw (← eq_of_some (entry (pos 1) 10) n e) (0, omega arith, tt, refl)
pair_placed (suc (suc zero)) n e =
    rw (← eq_of_some (entry (pos 4) 40) n e) (1, omega arith, (λ z. ground arith, tt), refl)
pair_placed (suc (suc (suc i))) n e = cc

pub pair-IsTable : IsTable pair
pair-IsTable = record { nonempty = omega arith; width = refl; placed = pair_placed }

abbrev fresh : Hash ℕ
fresh = new_hash 3

delete-Loses_example : Loses pair (pos 4) (entry (pos 1) 10) (entry (pos 4) 40)
delete-Loses_example =
    delete-Loses pair-IsTable (pos 4) (entry (pos 1) 10) (entry (pos 4) 40)
      (unfold get_hash_index to_u32 in refl) (λ z. ground arith) pair_found

-- A table of one slot is full with one key.
abbrev full : Hash ℕ
full = record { size = 1; hash_array = some (entry (pos 7) 70) ∷ [] }

full_other : (i : ℕ) (n : HashNode ℕ) → slot full i ≡ some n → n.key ≢ pos 8
full_other zero n e z = ground (arith, eq_of_some (entry (pos 7) 70) n e)
full_other (suc i) n e z = cc

full-Diverges_example : Diverges full (pos 8)
full-Diverges_example =
    full-Diverges full (pos 8) (omega arith) refl (unfold vacancies in refl) full_other

iterated : iterate_hash pair ≡ entry (pos 1) 10 ∷ entry (pos 4) 40 ∷ []
unfolding iterate_hash
iterated = refl

-- The second of these keys stands next to its index.
insert_all-Fills_example : Fills (entry (pos 1) 10 ∷ entry (pos 4) 40 ∷ []) fresh
unfolding new_hash vacancies
insert_all-Fills_example =
    insert_all-Fills (entry (pos 1) 10 ∷ entry (pos 4) 40 ∷ []) fresh
      (new_hash-IsTable 3 (omega arith)) (omega arith)
