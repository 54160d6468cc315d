-- ===== src/SharedMem/Connect.antt =====
-- connect_shm of src/lib/shmlib/shared_mem.c.
use legacy_point_monitor.Common.{ℕ, Bool, Option, none, some, ◌==◌, if◌then◌else◌}
use legacy_point_monitor.Common.Int.{ℤ, ◌==ℤ◌}
use legacy_point_monitor.Common.Outcome.{Outcome, ok, fault, ◌>>=◌}
use legacy_point_monitor.Store.HashTable.{HashNode, Hash, new_hash, get_hash_item, insert_hash_item}
use legacy_point_monitor.Store.Memory.{Ptr, null}
use legacy_point_monitor.Store.List.{new_list, push_list_item}
use legacy_point_monitor.SharedMem.State.{
  SegmentNode, sem_post, shm_attach, shm_error, shm_max_segments, Library, load_segment,
  put_segment, called,
}

-- What shmget, shmat (`none` for -1), semget and semop answer, what malloc returns for the SegmentNode
-- and for the ListNode, and the bytes of the process once the segment is attached.
pub record ConnectCalls : Type 0 where
  pub shmget : Option ℤ
  pub shmat : Option Ptr
  pub semget : ℤ
  pub semop_fails : Bool
  pub node_at : Ptr
  pub item_at : Ptr
  pub mapped : (Ptr → Option ℕ) → Ptr → Option ℕ

-- `sizeof(SegmentNode)` and the size of a pointer, on a 64-bit machine.
abbrev pub segment_bytes : ℕ
segment_bytes = 24

abbrev pub pointer_bytes : ℕ
pointer_bytes = 8

-- `if (SegmentNodes == NULL) SegmentNodes = new_hash(SHM_MAX_SEGMENTS);`
abbrev pub nodes_or_new : Option (Hash Ptr) → Hash Ptr
nodes_or_new none = new_hash shm_max_segments
nodes_or_new (some h) = h

-- The new structure is filled in and entered under the key.
unfoldable pub enter :
    ConnectCalls → ℤ → SegmentNode → Hash Ptr → Library → Outcome (Option Ptr × Library)
enter c key node h lib = do
  h ← insert_hash_item h key c.node_at segment_bytes
  ok (some c.node_at, record (put_segment c.node_at node lib) { segment_nodes = some h })

-- The SegmentNode of the item; a key that is new gets one, with a semaphore if these are in use.
-- `none` is the early return.
unfoldable pub segment_for :
    ConnectCalls
    → (key size shm_id : ℤ) → Hash Ptr
    → Option (HashNode Ptr)
    → Library
    → Outcome (Option Ptr × Library)
unfolding enter new_list
segment_for c key size shm_id h (some item) lib = ok (some item.value, lib)
segment_for c key size shm_id h none lib =
    let node : ℤ → SegmentNode = λ lock_id. record {
      key = key;
      shm_id = shm_id;
      lock_id = lock_id;
      size = size;
      attachments = new_list;
    } in
    if c.node_at == null
    then fault
    else if lib.use_semaphores
    then (if c.semget ==ℤ shm_error
        then ok (none, put_segment c.node_at (node c.semget) lib)
        else enter c key (node c.semget) h
            (if c.semop_fails then lib else called (sem_post c.semget) lib))
    else enter c key (node shm_error) h lib

-- The address is added to the segment's attachments.
unfoldable pub attach_to : ConnectCalls → Ptr → Option Ptr → Library → Outcome (Ptr × Library)
unfolding load_segment
attach_to c addr none lib = ok (null, lib)
attach_to c addr (some p) lib = do
  node ← load_segment lib p
  r ← push_list_item c.item_at node.attachments addr pointer_bytes lib.memory
  ok (addr, put_segment p (record node { attachments = r.0 }) (record lib { memory = r.1 }))

-- From the attachment at `addr` on.
unfoldable pub connect_at :
    ConnectCalls → (key size shm_id : ℤ) → Ptr → Hash Ptr → Library → Outcome (Ptr × Library)
unfolding segment_for attach_to
connect_at c key size shm_id addr h lib = do
  let lib =
      called (shm_attach addr)
        (record lib { memory = record lib.memory { bytes = c.mapped lib.memory.bytes } })
  item ← get_hash_item h key
  r ← segment_for c key size shm_id h item lib
  attach_to c addr r.0 r.1

-- The address is NULL if the segment could not be had.
unfoldable pub connect_shm : ConnectCalls → (key size : ℤ) → Library → Outcome (Ptr × Library)
unfolding connect_at
connect_shm c key size lib =
    let h = nodes_or_new lib.segment_nodes in
    let lib = record lib { segment_nodes = some h } in
    elim c.shmget [
      | none ↦ ok (null, lib)
      | some shm_id ↦ elim c.shmat [
        | none ↦ ok (null, lib)
        | some addr ↦ connect_at c key size shm_id addr h lib
      ]
    ]
