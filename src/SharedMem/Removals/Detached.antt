-- ===== src/SharedMem/Removals/Detached.antt =====
-- detach_shm removes no segment.
use legacy_point_monitor.Common.{refl, Option, none, some, by_test}
use legacy_point_monitor.Common.Int.{ℤ, ◌==ℤ◌}
use legacy_point_monitor.Common.Outcome.{Ensures, Ensures-bind, Ensures-then}
use legacy_point_monitor.Store.HashTable.{HashNode}
use legacy_point_monitor.Store.Memory.{Ptr}
use legacy_point_monitor.Store.List.{remove_list_item}
use legacy_point_monitor.SharedMem.State.{
  shm_detach, shm_error, Library, segment_item, load_segment, called,
}
use legacy_point_monitor.SharedMem.Detach.{
  LockCalls, DetachCalls, unused, find_key_for_address, remove_lock, destroy_shm_lock, forget,
  detached, detach_shm,
}
use legacy_point_monitor.SharedMem.Removals.{SparesLib, Spares, SparesLib-trans}

forget-Spares :
    (item : Option (HashNode Ptr)) (addr : Ptr) (lib : Library)
    → Ensures (SparesLib lib) (forget item addr lib)
unfolding forget
forget-Spares none addr lib = (refl, refl)
forget-Spares (some item) addr lib =
    Ensures-then (SparesLib lib) (load_segment lib item.value) _ λ node.
      Ensures-then (SparesLib lib) (remove_list_item node.attachments addr lib.memory) _
        λ r. (refl, refl)

remove_lock-Spares :
    (c : LockCalls) (item : Option (HashNode Ptr)) (lib : Library)
    → Ensures (SparesLib lib) (remove_lock c item lib)
unfolding remove_lock
remove_lock-Spares c none lib = (refl, refl)
remove_lock-Spares c (some item) lib =
    Ensures-then (SparesLib lib) (load_segment lib item.value) _ λ node.
      by_test (SparesLib lib) (unused c.stat)
        (by_test (SparesLib lib) c.remove_fails (refl, refl) (λ e. (refl, refl)))
        (λ e. (refl, refl))

destroy_lock-Spares :
    (c : LockCalls) (key : ℤ) (lib : Library) → Ensures (SparesLib lib) (destroy_shm_lock c key lib)
unfolding destroy_shm_lock
destroy_lock-Spares c key lib =
    by_test (Ensures (SparesLib lib)) lib.use_semaphores
      (Ensures-then (SparesLib lib) (segment_item lib key) _ λ item. remove_lock-Spares c item lib)
      (λ e. (refl, refl))

detached-Spares :
    (c : DetachCalls) (addr : Ptr) (key : ℤ) (lib : Library)
    → Ensures (Spares lib) (detached c addr key lib)
unfolding detached
detached-Spares c addr key lib =
    let from =
      called (shm_detach addr)
        (record lib { memory = record lib.memory { bytes = c.unmapped lib.memory.bytes } }) in
    Ensures-then (Spares lib) (segment_item from key) _ λ item.
      Ensures-bind (SparesLib from) (Spares lib) (forget item addr from) _
        (forget-Spares item addr from)
        λ mid forgot.
          Ensures-bind (SparesLib mid) (Spares lib) (destroy_shm_lock c.lock key mid) _
            (destroy_lock-Spares c.lock key mid)
            λ last dropped. SparesLib-trans lib mid last forgot dropped

-- Whatever the kernel answers, detach_shm removes no segment.
pub detach-Spares :
    (c : DetachCalls) (addr : Ptr) (lib : Library) → Ensures (Spares lib) (detach_shm c addr lib)
unfolding detach_shm
detach-Spares c addr lib = Ensures-then (Spares lib) (find_key_for_address lib addr) _ λ key.
    by_test (Ensures (Spares lib)) (key ==ℤ shm_error) (refl, refl)
      λ known.
        by_test (Ensures (Spares lib)) c.shmdt_fails (refl, refl)
          λ let_go. detached-Spares c addr key lib
