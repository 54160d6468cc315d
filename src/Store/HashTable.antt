-- ===== src/Store/HashTable.antt =====
-- src/lib/store/hash_table.c and include/hash_table.h: open addressing with linear probing over a fixed
-- array, deletion by clearing a slot. The array holds pointers to nodes, which nothing changes after
-- `malloc`, so a slot is an optional node. `malloc` is taken to succeed.
pub mod Probe
pub mod Table
pub mod Slots
pub mod Insert
pub mod Fill
pub mod Direct
pub mod Delete
use legacy_point_monitor.Common.{
  ℕ, zero, suc, ◌+◌, ◌%◌, Bool, true, false, Option, none, some, List, [], ◌∷◌, get_or, set,
  replicate, ◌==◌, if◌then◌else◌,
}
use legacy_point_monitor.Common.Int.{ℤ, ◌==ℤ◌, to_u32}
use legacy_point_monitor.Common.Outcome.{Outcome, ok, fault, out_of_fuel, ◌>>=◌}

pub record HashNode {ℓ} (V : Type ℓ) : Type ℓ where
  pub key : ℤ
  pub size : ℕ
  pub value : V

pub record Hash {ℓ} (V : Type ℓ) : Type ℓ where
  pub size : ℕ
  pub hash_array : List (Option (HashNode V))

-- Where the probe loop ends: at a node with the key, or at a slot that holds NULL.
pub data Slot {ℓ} (V : Type ℓ) : Type ℓ where
  hit : ℕ → HashNode V → Slot V
  vacant : ℕ → Slot V

module _ {ℓ} {V : Type ℓ} where
  unfoldable pub new_hash : ℕ → Hash V
  new_hash n = record { size = n; hash_array = replicate n none }

  -- `((unsigned int) key) % hash->size`, in a table with a slot.
  unfoldable pub get_hash_index : Hash V → ℤ → ℕ
  get_hash_index h k = to_u32 k % h.size

  -- `hash->hash_array[i]`
  abbrev pub slot : Hash V → ℕ → Option (HashNode V)
  slot h i = get_or h.hash_array i none

  -- One test of the loop at slot `i`, `rest` being the rounds after it.
  abbrev pub visit : ℤ → ℕ → Option (HashNode V) → Outcome (Slot V) → Outcome (Slot V)
  visit k i none rest = ok (vacant i)
  visit k i (some n) rest = if n.key ==ℤ k then ok (hit i n) else rest

  -- `while (hash->hash_array[i] != NULL) { if (... ->key == key) ...; ++i; i %= hash->size; }`,
  -- the loop that the three functions below share.
  unfoldable pub probe : ℕ → Hash V → ℤ → ℕ → Outcome (Slot V)
  probe zero h k i = out_of_fuel
  probe (suc fuel) h k i = let rest = probe fuel h k ((i + 1) % h.size) in visit k i (slot h i) rest

  -- The loop from the key's own index, with as many rounds as there are slots. The remainder by
  -- zero traps.
  unfoldable pub locate : Hash V → ℤ → Outcome (Slot V)
  unfolding probe get_hash_index
  locate h k = if h.size == 0 then fault else probe h.size h k (get_hash_index h k)

  abbrev pub node_of : Slot V → Option (HashNode V)
  node_of (hit i n) = some n
  node_of (vacant i) = none

  abbrev pub index_of : Slot V → ℕ
  index_of (hit i n) = i
  index_of (vacant i) = i

  unfoldable pub get_hash_item : Hash V → ℤ → Outcome (Option (HashNode V))
  unfolding locate
  get_hash_item h k = do s ← locate h k; ok (node_of s)

  abbrev pub put_at : Hash V → ℕ → Option (HashNode V) → Hash V
  put_at h i c = record h { hash_array = set h.hash_array i c }

  -- A node with the same key is overwritten.
  unfoldable pub insert_hash_item : Hash V → ℤ → V → ℕ → Outcome (Hash V)
  unfolding locate
  insert_hash_item h k v n = do
    let item : HashNode V = record { key = k; size = n; value = v }
    s ← locate h k
    ok (put_at h (index_of s) (some item))

  abbrev pub clear : Hash V → Slot V → Bool × Hash V
  clear h (hit i n) = (true, put_at h i none)
  clear h (vacant i) = (false, h)

  unfoldable pub delete_hash_item : Hash V → ℤ → Outcome (Bool × Hash V)
  unfolding locate
  delete_hash_item h k = do s ← locate h k; ok (clear h s)

-- The nodes that `processor` is called with, in order.
unfoldable pub visit_all {ℓ} : {V : Type ℓ} → List (Option (HashNode V)) → List (HashNode V)
visit_all [] = []
visit_all (none ∷ slots) = visit_all slots
visit_all (some n ∷ slots) = n ∷ visit_all slots

unfoldable pub iterate_hash {ℓ} : {V : Type ℓ} → Hash V → List (HashNode V)
unfolding visit_all
iterate_hash h = visit_all h.hash_array
