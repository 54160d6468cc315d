-- ===== src/SharedMem/State.antt =====
-- src/lib/shmlib/shared_mem.c and include/shared_mem.h: the structures, the static variables, and the
-- locks. The table from keys to segments holds pointers to SegmentNode structures; the list of a
-- segment's attachments has its nodes in the memory of Store/Memory. What the kernel answers is an
-- argument, and what it was asked to do is kept in the order of the calls, the last first.
use legacy_point_monitor.Common.{
  ℕ, Bool, true, false, Option, none, some, List, ◌∷◌, ◌==◌, if◌then◌else◌,
}
use legacy_point_monitor.Common.Int.{ℤ, pos, minus_one}
use legacy_point_monitor.Common.Outcome.{Outcome, ok, fault, ◌>>=◌}
use legacy_point_monitor.Store.HashTable.{HashNode, Hash, get_hash_item}
use legacy_point_monitor.Store.Memory.{Ptr, null, Memory, update}
use legacy_point_monitor.Store.List.{ListHandle}

abbrev pub shm_ok : ℤ
shm_ok = pos 0

abbrev pub shm_error : ℤ
shm_error = minus_one

abbrev pub shm_max_segments : ℕ
shm_max_segments = 4096

-- The `List` structure behind `attachments` has no other pointer to it, so it is kept in place.
pub record SegmentNode : Type 0 where
  pub key : ℤ
  pub shm_id : ℤ
  pub lock_id : ℤ
  pub size : ℤ
  pub attachments : ListHandle

-- A semaphore is lowered or raised by one, or removed; a segment is attached, detached or removed.
pub data SystemCall : Type 0 where
  sem_wait sem_post sem_remove shm_remove : ℤ → SystemCall
  shm_attach shm_detach : Ptr → SystemCall

-- `SegmentNodes`, which is NULL at first, and `UseSemaphores`; the SegmentNode structures by address.
pub record Library : Type 0 where
  pub segment_nodes : Option (Hash Ptr)
  pub use_semaphores : Bool
  pub segments : Ptr → Option SegmentNode
  pub memory : Memory
  pub calls : List SystemCall

unfoldable pub use_semaphores : Bool → Library → Library
use_semaphores set lib = record lib { use_semaphores = set }

-- `get_hash_item(SegmentNodes, key)`; a NULL table is read through.
unfoldable pub segment_item : Library → ℤ → Outcome (Option (HashNode Ptr))
segment_item lib key = elim lib.segment_nodes [ none ↦ fault | some h ↦ get_hash_item h key ]

-- `*p` at a SegmentNode.
unfoldable pub load_segment : Library → Ptr → Outcome SegmentNode
load_segment lib p =
    if p == null then fault else elim (lib.segments p) [ none ↦ fault | some node ↦ ok node ]

abbrev pub put_segment : Ptr → SegmentNode → Library → Library
put_segment p node lib = record lib { segments = update lib.segments p (some node) }

abbrev pub called : SystemCall → Library → Library
called c lib = record lib { calls = c ∷ lib.calls }

-- `semop` on the lock of an item, `succeeds` being its answer.
unfoldable pub lock_by :
    (ℤ → SystemCall) → Bool → Option (HashNode Ptr) → Library → Outcome (Bool × Library)
unfolding load_segment
lock_by op succeeds none lib = ok (false, lib)
lock_by op succeeds (some item) lib = do
  node ← load_segment lib item.value
  ok (if succeeds then (true, called (op node.lock_id) lib) else (false, lib))

unfoldable pub shm_lock : Bool → ℤ → Library → Outcome (Bool × Library)
unfolding lock_by segment_item
shm_lock succeeds key lib =
    if lib.use_semaphores
    then (do item ← segment_item lib key; lock_by sem_wait succeeds item lib)
    else ok (true, lib)

unfoldable pub shm_unlock : Bool → ℤ → Library → Outcome (Bool × Library)
unfolding lock_by segment_item
shm_unlock succeeds key lib =
    if lib.use_semaphores
    then (do item ← segment_item lib key; lock_by sem_post succeeds item lib)
    else ok (true, lib)
