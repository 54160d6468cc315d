-- ===== src/SharedMem/Detach.antt =====
-- detach_shm and destroy_shm of src/lib/shmlib/shared_mem.c. A loop along the attachments is given one
-- round more than their number.
use legacy_point_monitor.Common.{
  ℕ, zero, suc, ◌+◌, Bool, true, false, Option, none, some, List, [], ◌∷◌, ◌==◌, if◌then◌else◌,
}
use legacy_point_monitor.Common.Int.{ℤ, ◌==ℤ◌}
use legacy_point_monitor.Common.Outcome.{Outcome, ok, fault, out_of_fuel, ◌>>=◌}
use legacy_point_monitor.Store.HashTable.{HashNode, delete_hash_item}
use legacy_point_monitor.Store.Memory.{Ptr, null, Memory, load}
use legacy_point_monitor.Store.List.{remove_list_item}
use legacy_point_monitor.SharedMem.State.{
  sem_remove, shm_remove, shm_detach, shm_ok, shm_error, Library, segment_item, load_segment,
  put_segment, called,
}

-- What shmctl answers to IPC_STAT: the number of attachments, errno 22, or another error.
pub data Stat : Type 0 where
  attached : ℕ → Stat
  stat_invalid stat_error : Stat

-- What shmctl answers to IPC_RMID: done, errno 22, or another error.
pub data Removal : Type 0 where
  removed remove_invalid remove_error : Removal

pub record LockCalls : Type 0 where
  pub stat : Stat
  pub remove_fails : Bool

-- The answers of shmdt and of the calls on the lock, and the bytes of the process after shmdt.
pub record DetachCalls : Type 0 where
  pub shmdt_fails : Bool
  pub lock : LockCalls
  pub unmapped : (Ptr → Option ℕ) → Ptr → Option ℕ

-- The answers in the `i`-th detach_shm, and those after the loop.
pub record DestroyCalls : Type 0 where
  pub detach : ℕ → DetachCalls
  pub lock : LockCalls
  pub remove : Removal

-- Is the address among the attachments from `at` on?
unfoldable pub find_attachment : ℕ → Ptr → Ptr → Memory → Outcome Bool
find_attachment zero addr at m = out_of_fuel
find_attachment (suc fuel) addr at m = if at == null then ok false else do
  n ← load at m
  if n.0.value == addr then ok true else find_attachment fuel addr n.0.next m

unfoldable pub find_in_slots : Library → Ptr → List (Option (HashNode Ptr)) → Outcome ℤ
unfolding find_attachment load_segment
find_in_slots lib addr [] = ok shm_error
find_in_slots lib addr (none ∷ slots) = find_in_slots lib addr slots
find_in_slots lib addr (some item ∷ slots) = do
  node ← load_segment lib item.value
  found ← find_attachment (node.attachments.size + 1) addr node.attachments.head lib.memory
  if found then ok node.key else find_in_slots lib addr slots

unfoldable pub find_key_for_address : Library → Ptr → Outcome ℤ
unfolding find_in_slots
find_key_for_address lib addr = elim lib.segment_nodes [
  | none ↦ fault
  | some h ↦ find_in_slots lib addr h.hash_array
]

-- The lock is removed if nothing is attached any more.
abbrev pub unused : Stat → Bool
unused (attached zero) = true
unused (attached (suc n)) = false
unused stat_invalid = true
unused stat_error = false

unfoldable pub remove_lock : LockCalls → Option (HashNode Ptr) → Library → Outcome Library
unfolding load_segment
remove_lock c none lib = ok lib
remove_lock c (some item) lib = do
  node ← load_segment lib item.value
  ok (
      if unused c.stat
      then if c.remove_fails then lib else called (sem_remove node.lock_id) lib
      else lib)

unfoldable pub destroy_shm_lock : LockCalls → ℤ → Library → Outcome Library
unfolding remove_lock segment_item
destroy_shm_lock c key lib =
    if lib.use_semaphores then (do item ← segment_item lib key; remove_lock c item lib) else ok lib

-- The address is taken off the attachments of the item's segment; whether it was there is only logged.
unfoldable pub forget : Option (HashNode Ptr) → Ptr → Library → Outcome Library
unfolding load_segment
forget none addr lib = ok lib
forget (some item) addr lib = do
  node ← load_segment lib item.value
  r ← remove_list_item node.attachments addr lib.memory
  ok (put_segment item.value (record node { attachments = r.0.1 }) (record lib { memory = r.1 }))

-- From a successful shmdt on.
unfoldable pub detached : DetachCalls → Ptr → ℤ → Library → Outcome (ℤ × Library)
unfolding forget destroy_shm_lock segment_item
detached c addr key lib = do
  let lib =
      called (shm_detach addr)
        (record lib { memory = record lib.memory { bytes = c.unmapped lib.memory.bytes } })
  item ← segment_item lib key
  lib ← forget item addr lib
  lib ← destroy_shm_lock c.lock key lib
  ok (shm_ok, lib)

unfoldable pub detach_shm : DetachCalls → Ptr → Library → Outcome (ℤ × Library)
unfolding find_key_for_address detached
detach_shm c addr lib = do
  key ← find_key_for_address lib addr
  if key ==ℤ shm_error
      then ok (shm_error, lib)
      else if c.shmdt_fails
      then ok (shm_error, lib)
      else detached c addr key lib

-- The loop of destroy_shm; the pointer to the next node is read before the call.
unfoldable pub detach_each : (ℕ → DetachCalls) → ℕ → ℕ → Ptr → Library → Outcome Library
unfolding detach_shm
detach_each c zero i at lib = out_of_fuel
detach_each c (suc fuel) i at lib = if at == null then ok lib else do
  n ← load at lib.memory
  r ← detach_shm (c i) n.0.value lib
  detach_each c fuel (i + 1) n.0.next r.1

unfoldable pub delete_segment : ℤ → Library → Outcome Library
delete_segment key lib = elim lib.segment_nodes [
  | none ↦ fault
  | some h ↦ do r ← delete_hash_item h key; ok (record lib { segment_nodes = some r.1 })
]

unfoldable pub remove_segment : Removal → ℤ → ℤ → Library → Outcome (ℤ × Library)
unfolding delete_segment
remove_segment removed key shm_id lib = do
  lib ← delete_segment key (called (shm_remove shm_id) lib)
  ok (shm_ok, lib)
remove_segment remove_invalid key shm_id lib = do lib ← delete_segment key lib; ok (shm_error, lib)
remove_segment remove_error key shm_id lib = ok (shm_error, lib)

unfoldable pub destroy_item :
    DestroyCalls → ℤ → Option (HashNode Ptr) → Library → Outcome (ℤ × Library)
unfolding detach_each destroy_shm_lock remove_segment load_segment
destroy_item c key none lib = ok (shm_error, lib)
destroy_item c key (some item) lib = do
  node ← load_segment lib item.value
  lib ← detach_each c.detach (node.attachments.size + 1) 0 node.attachments.head lib
  lib ← destroy_shm_lock c.lock key lib
  remove_segment c.remove key node.shm_id lib

unfoldable pub destroy_shm : DestroyCalls → ℤ → Library → Outcome (ℤ × Library)
unfolding destroy_item segment_item
destroy_shm c key lib = do item ← segment_item lib key; destroy_item c key item lib
