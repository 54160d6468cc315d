-- ===== src/SharedMem/Removals.antt =====
-- connect_shm and the locks remove no segment, whatever the kernel answers; detach_shm is in the module
-- below.
pub mod Detached
use legacy_point_monitor.Common.{
  ◌≡◌, refl, ◌∙◌, Bool, true, false, Option, none, some, List, [], ◌∷◌, ◌==◌, by_test, Option-cases,
  inl, inr,
}
use legacy_point_monitor.Common.Int.{ℤ, ◌==ℤ◌}
use legacy_point_monitor.Common.Outcome.{
  Outcome, ok, Ensures, Ensures-bind, Ensures-then, Ensures-imply,
}
use legacy_point_monitor.Store.HashTable.{HashNode, Hash, get_hash_item, insert_hash_item}
use legacy_point_monitor.Store.Memory.{Ptr, null}
use legacy_point_monitor.Store.List.{new_list, push_list_item}
use legacy_point_monitor.SharedMem.State.{
  SegmentNode, SystemCall, sem_wait, sem_post, shm_attach, shm_remove, shm_error, Library,
  segment_item, load_segment, lock_by, shm_lock, shm_unlock, called,
}
use legacy_point_monitor.SharedMem.Connect.{
  ConnectCalls, nodes_or_new, enter, segment_for, attach_to, connect_at, connect_shm, segment_bytes,
  pointer_bytes,
}

-- A segment was removed.
abbrev pub has_removed : List SystemCall → Bool
has_removed [] = false
has_removed (shm_remove id ∷ calls) = true
has_removed (_ ∷ calls) = has_removed calls

-- No segment was removed in between, and semaphores are used as before.
abbrev pub SparesLib : Library → Library → Type 0
SparesLib lib lib' =
    (has_removed lib'.calls ≡ has_removed lib.calls) × (lib'.use_semaphores ≡ lib.use_semaphores)

abbrev pub Spares {ℓ} : {A : Type ℓ} → Library → A × Library → Type 0
Spares lib r = SparesLib lib r.1

pub SparesLib-trans :
    (lib mid lib' : Library) → SparesLib lib mid → SparesLib mid lib' → SparesLib lib lib'
SparesLib-trans lib mid lib' first second = (second.0 ∙ first.0, second.1 ∙ first.1)

lock_by-Spares :
    (op : ℤ → SystemCall) (b : Bool) (item : Option (HashNode Ptr)) (lib : Library)
    → ((id : ℤ) (calls : List SystemCall) → has_removed (op id ∷ calls) ≡ has_removed calls)
    → Ensures (Spares lib) (lock_by op b item lib)
unfolding lock_by
lock_by-Spares op b none lib other = (refl, refl)
lock_by-Spares op b (some item) lib other =
    Ensures-then (Spares lib) (load_segment lib item.value) _ λ node.
      by_test (λ (r : Bool × Library). Spares lib r) b (other node.lock_id lib.calls, refl)
        (λ e. (refl, refl))

pub lock-Spares : (b : Bool) (key : ℤ) (lib : Library) → Ensures (Spares lib) (shm_lock b key lib)
unfolding shm_lock
lock-Spares b key lib =
    by_test (Ensures (Spares lib)) lib.use_semaphores
      (Ensures-then (Spares lib) (segment_item lib key) _
        λ item. lock_by-Spares sem_wait b item lib (λ id calls. refl))
      (λ e. (refl, refl))

pub unlock-Spares :
    (b : Bool) (key : ℤ) (lib : Library) → Ensures (Spares lib) (shm_unlock b key lib)
unfolding shm_unlock
unlock-Spares b key lib =
    by_test (Ensures (Spares lib)) lib.use_semaphores
      (Ensures-then (Spares lib) (segment_item lib key) _
        λ item. lock_by-Spares sem_post b item lib (λ id calls. refl))
      (λ e. (refl, refl))

-- One such call after another.
Ensures-weaken :
    {A : Type 0} (mid lib : Library) (o : Outcome (A × Library))
    → SparesLib lib mid
    → Ensures (Spares mid) o
    → Ensures (Spares lib) o
Ensures-weaken mid lib o first e =
    Ensures-imply (Spares mid) (Spares lib) o (λ r spared. SparesLib-trans lib mid r.1 first spared)
      e

enter-Spares :
    (c : ConnectCalls) (key : ℤ) (node : SegmentNode) (h : Hash Ptr) (lib : Library)
    → Ensures (Spares lib) (enter c key node h lib)
unfolding enter
enter-Spares c key node h lib =
    Ensures-then (Spares lib) (insert_hash_item h key c.node_at segment_bytes) _ λ h'. (refl, refl)

segment_for-Spares :
    (c : ConnectCalls) (key size shm_id : ℤ) (h : Hash Ptr) (item : Option (HashNode Ptr))
    (lib : Library)
    → Ensures (Spares lib) (segment_for c key size shm_id h item lib)
unfolding segment_for
segment_for-Spares c key size shm_id h (some item) lib = (refl, refl)
segment_for-Spares c key size shm_id h none lib =
    let P = λ (o : Outcome (Option Ptr × Library)). Ensures (Spares lib) o in
    let node : ℤ → SegmentNode = λ lock_id. record {
      key = key;
      shm_id = shm_id;
      lock_id = lock_id;
      size = size;
      attachments = new_list;
    } in
    by_test P (c.node_at == null) tt λ made.
      by_test P lib.use_semaphores
        (by_test P (c.semget ==ℤ shm_error) (refl, refl)
          λ got.
            by_test (λ (from : Library). Ensures (Spares lib) (enter c key (node c.semget) h from))
              c.semop_fails (enter-Spares c key (node c.semget) h lib)
              λ e. enter-Spares c key (node c.semget) h (called (sem_post c.semget) lib))
        λ off. enter-Spares c key (node shm_error) h lib

attach_to-Spares :
    (c : ConnectCalls) (addr : Ptr) (at : Option Ptr) (lib : Library)
    → Ensures (Spares lib) (attach_to c addr at lib)
unfolding attach_to
attach_to-Spares c addr none lib = (refl, refl)
attach_to-Spares c addr (some p) lib = Ensures-then (Spares lib) (load_segment lib p) _ λ node.
    Ensures-then (Spares lib)
      (push_list_item c.item_at node.attachments addr pointer_bytes lib.memory) _ λ r. (refl, refl)

connect_at-Spares :
    (c : ConnectCalls) (key size shm_id : ℤ) (addr : Ptr) (h : Hash Ptr) (lib : Library)
    → Ensures (Spares lib) (connect_at c key size shm_id addr h lib)
unfolding connect_at
connect_at-Spares c key size shm_id addr h lib =
    let from =
      called (shm_attach addr)
        (record lib { memory = record lib.memory { bytes = c.mapped lib.memory.bytes } }) in
    Ensures-then (Spares lib) (get_hash_item h key) _ λ item.
      Ensures-bind (Spares from) (Spares lib) (segment_for c key size shm_id h item from) _
        (segment_for-Spares c key size shm_id h item from)
        λ r spared.
          Ensures-weaken r.1 lib (attach_to c addr r.0 r.1) spared (attach_to-Spares c addr r.0 r.1)

-- The three ways of connect_shm, by the answers of shmget and shmat.
pub connect-refused :
    (c : ConnectCalls) (key size : ℤ) (lib : Library)
    → c.shmget ≡ none
    → connect_shm c key size lib
      ≡ ok (null, record lib { segment_nodes = some (nodes_or_new lib.segment_nodes) })
unfolding connect_shm
connect-refused c key size lib no_segment = rw no_segment refl

pub connect-unattached :
    (c : ConnectCalls) (key size shm_id : ℤ) (lib : Library)
    → c.shmget ≡ some shm_id
    → c.shmat ≡ none
    → connect_shm c key size lib
      ≡ ok (null, record lib { segment_nodes = some (nodes_or_new lib.segment_nodes) })
unfolding connect_shm
connect-unattached c key size shm_id lib got not_attached = rw (got, not_attached) refl

connect-attached :
    (c : ConnectCalls) (key size shm_id : ℤ) (addr : Ptr) (lib : Library)
    → c.shmget ≡ some shm_id
    → c.shmat ≡ some addr
    → connect_shm c key size lib
      ≡ connect_at c key size shm_id addr
          (nodes_or_new lib.segment_nodes)
          (record lib { segment_nodes = some (nodes_or_new lib.segment_nodes) })
unfolding connect_shm
connect-attached c key size shm_id addr lib got attached = rw (got, attached) refl

-- Whatever the kernel answers, connect_shm removes no segment.
pub connect-Spares :
    (c : ConnectCalls) (key size : ℤ) (lib : Library)
    → Ensures (Spares lib) (connect_shm c key size lib)
connect-Spares c key size lib = elim (Option-cases c.shmget) [
  | inl no_segment ↦ rw (connect-refused c key size lib no_segment) (refl, refl)
  | inr (shm_id, got) ↦ elim (Option-cases c.shmat) [
    | inl not_attached ↦ rw (connect-unattached c key size shm_id lib got not_attached) (refl, refl)
    | inr (addr, attached) ↦
        let h = nodes_or_new lib.segment_nodes in
        rw (connect-attached c key size shm_id addr lib got attached)
          (connect_at-Spares c key size shm_id addr h (record lib { segment_nodes = some h }))
  ]
]
