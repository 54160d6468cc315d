-- ===== src/SharedMem/Entering.antt =====
-- connect_shm for a new key enters a segment in the table.
use legacy_point_monitor.Common.{
  ◌<◌, ◌≡◌, ◌≢◌, refl, ap, ◌∙◌, inl, inr, false, none, some, [], ◌∷◌, if◌then◌else◌, arith,
  Bool-cases, beq_of_ne, true,
}
use legacy_point_monitor.Common.Int.{ℤ, ◌==ℤ◌, beqℤ_refl}
use legacy_point_monitor.Common.Outcome.{ok, ◌>>=◌}
use legacy_point_monitor.Store.HashTable.{Hash, get_hash_item}
use legacy_point_monitor.Store.HashTable.Table.{IsTable, vacancies}
use legacy_point_monitor.Store.HashTable.Insert.{get-insert}
use legacy_point_monitor.Store.Memory.{Ptr, null, Memory}
use legacy_point_monitor.Store.List.{new_list}
use legacy_point_monitor.Store.List.Push.{Readable}
use legacy_point_monitor.SharedMem.State.{
  SegmentNode, sem_post, shm_error, Library, put_segment, called,
}
use legacy_point_monitor.SharedMem.Connect.{
  ConnectCalls, pointer_bytes, segment_bytes, nodes_or_new, enter, segment_for, attach_to,
  connect_shm,
}
use legacy_point_monitor.SharedMem.Attachments.{Tracks, Grants, attach-Attaches, ready, granted}

-- After the first connection for a key the table leads it to a segment with the one attachment, and
-- every other key to what it led to before.
pub record Enters (c : ConnectCalls) (key shm_id : ℤ) (addr : Ptr) (h : Hash Ptr) (lib' : Library)
    : Type 0 where
  pub table : Hash Ptr
  pub node : SegmentNode
  pub entered : Tracks lib' table key c.node_at node ((c.item_at, addr) ∷ [])
  pub id : node.shm_id ≡ shm_id
  pub own_key : node.key ≡ key
  pub well_formed : IsTable table
  pub others : (q : ℤ) → (key ==ℤ q) ≡ false → get_hash_item table q ≡ get_hash_item h q

segment_of : (key size shm_id lock_id : ℤ) → SegmentNode
unfolding new_list
segment_of key size shm_id lock_id = record {
  key = key;
  shm_id = shm_id;
  lock_id = lock_id;
  size = size;
  attachments = new_list;
}

enter-Enters :
    (c : ConnectCalls) (key size shm_id lock_id : ℤ) (addr : Ptr) (h : Hash Ptr) (lib : Library)
    → IsTable h
    → 1 < vacancies h.hash_array
    → c.node_at ≢ null
    → Readable lib.memory addr pointer_bytes
    → c.item_at ≢ null
    → lib.memory.nodes c.item_at ≡ none
    → (lib' : Library) × ((do
      r ← enter c key (segment_of key size shm_id lock_id) h lib
      attach_to c addr r.0 r.1)
        ≡ ok (addr, lib'))
      × Enters c key shm_id addr h lib'
unfolding enter segment_of
enter-Enters c key size shm_id lock_id addr h lib t room nne readable ne unused =
    let node = segment_of key size shm_id lock_id in
    let (h', inserted, t', less, reads) = get-insert h key c.node_at segment_bytes t room in
    let entered = record (put_segment c.node_at node lib) { segment_nodes = some h' } in
    let (lib', run, a) =
      attach-Attaches c entered addr c.node_at node []
        (record {
          nonnull = nne;
          object = ground arith;
          attachments = record { chain = refl; tail = refl; size = refl };
        })
        readable ne unused in
    (
      lib',
      rw inserted run,
      record {
        table = h';
        node = record node { attachments = a.list };
        entered = record {
          table = a.table;
          found = (segment_bytes, rw (reads key, beqℤ_refl key) refl);
          segment = a.segment;
        };
        id = refl;
        own_key = refl;
        well_formed = t';
        others = λ q apart. rw (reads q, apart) refl;
      },
    )

-- A new segment, with a semaphore or without.
segment-first :
    (c : ConnectCalls) (key size shm_id : ℤ) (h : Hash Ptr) (lib : Library)
    → c.node_at ≢ null
    → (lib.use_semaphores ≡ true → (c.semget ==ℤ shm_error) ≡ false)
    → (lock_id : ℤ) × (from : Library) × (segment_for c key size shm_id h none lib
        ≡ enter c key (segment_of key size shm_id lock_id) h from)
      × (from.memory ≡ lib.memory)
unfolding segment_for segment_of
segment-first c key size shm_id h lib nne sem =
    let made = beq_of_ne c.node_at null nne in
    elim (Bool-cases lib.use_semaphores) [
      | inl on ↦ (
        c.semget,
        if c.semop_fails then lib else called (sem_post c.semget) lib,
        rw (made, on, sem on) refl,
        elim (Bool-cases c.semop_fails) [ inl b ↦ rw b refl | inr b ↦ rw b refl ],
      )
      | inr off ↦ (shm_error, lib, rw (made, off) refl, refl)
    ]

-- connect_shm for a key without a segment, where the calls of the kernel and malloc succeed and the
-- table has two empty slots, returns the new address, which is the only attachment of a new segment
-- under the key; every other key leads to what it led to before.
pub connect-first :
    (c : ConnectCalls) (key size shm_id : ℤ) (lib : Library) (h : Hash Ptr) (addr : Ptr)
    → nodes_or_new lib.segment_nodes ≡ h
    → IsTable h
    → 1 < vacancies h.hash_array
    → get_hash_item h key ≡ ok none
    → c.node_at ≢ null
    → (lib.use_semaphores ≡ true → (c.semget ==ℤ shm_error) ≡ false)
    → Grants c lib shm_id addr
    → (lib' : Library) × (connect_shm c key size lib ≡ ok (addr, lib'))
      × Enters c key shm_id addr h lib'
connect-first c key size shm_id lib h addr new t room absent nne sem g =
    let (lock_id, from, made, same) =
      segment-first c key size shm_id h (ready c addr h lib) nne sem in
    let (lib', run, e) =
      enter-Enters c key size shm_id lock_id addr h from t room nne (rw same g.readable) g.item
        (ap (λ (m : Memory). m.nodes c.item_at) same ∙ g.unused) in
    (
      lib',
      granted c key size shm_id lib h addr new g none absent
          ∙ ap (λ o. o >>= λ r. attach_to c addr r.0 r.1) made
          ∙ run,
      e,
    )
