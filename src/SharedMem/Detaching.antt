-- ===== src/SharedMem/Detaching.antt =====
-- detach_shm finds the segment of an address, and takes the address off its attachments.
use legacy_point_monitor.Common.{
  ℕ, zero, suc, ◌+◌, ◌<◌, ◌≡◌, ◌≢◌, refl, ap, ◌∙◌, ◌⊎◌, inl, inr, Bool, true, false, Option, none,
  some, List, [], ◌∷◌, ◌++◌, ◌==◌, arith, length, Bool-cases, beq_of_ne,
}
use legacy_point_monitor.Common.Int.{ℤ, ◌==ℤ◌}
use legacy_point_monitor.Common.Outcome.{Outcome, ok, ◌>>=◌}
use legacy_point_monitor.Store.HashTable.{HashNode, Hash, get_hash_item}
use legacy_point_monitor.Store.Memory.{Ptr, null, Memory, load-ok}
use legacy_point_monitor.Store.List.{ListHandle, remove_list_item}
use legacy_point_monitor.Store.List.Chain.{Cells, Seg, SameOutside}
use legacy_point_monitor.Store.List.Remove.{contains, erase, before, remove-erase}
use legacy_point_monitor.SharedMem.State.{
  SegmentNode, SystemCall, sem_remove, shm_detach, shm_ok, shm_error, Library, segment_item,
  load_segment, put_segment, called,
}
use legacy_point_monitor.SharedMem.Detach.{
  LockCalls, DetachCalls, unused, find_attachment, find_in_slots, find_key_for_address, remove_lock,
  destroy_shm_lock, forget, detached, detach_shm,
}
use legacy_point_monitor.SharedMem.Attachments.{HasChain, Reaches}

find-contains :
    (fuel : ℕ) (addr at : Ptr) (m : Memory) (xs : Cells)
    → length xs < fuel
    → Seg m.nodes null at xs
    → find_attachment fuel addr at m ≡ ok (contains addr xs)
unfolding find_attachment
find-contains zero addr at m xs lt s = absurd (omega arith)
find-contains (suc fuel) addr at m [] lt s = rw s refl
find-contains (suc fuel) addr at m ((a, w) ∷ xs) lt (q, e, ane, there, out, s) =
    elim (Bool-cases (w == addr)) [
      | inl hit ↦ rw (e, beq_of_ne a null ane, load-ok m ane there, hit) refl
      | inr miss ↦
          rw (e, beq_of_ne a null ane, load-ok m ane there, miss)
            (find-contains fuel addr q m xs (omega arith) s)
    ]

-- The first of the segments in the slots to which the address belongs has the key, and the chains and
-- counts of the attachments are right up to there.
abbrev pub Owned : Library → Ptr → ℤ → List (Option (HashNode Ptr)) → Type 0
Owned lib addr key [] = ⊥
Owned lib addr key (none ∷ slots) = Owned lib addr key slots
Owned lib addr key (some item ∷ slots) =
    (node : SegmentNode) × (xs : Cells) × HasChain lib item.value node xs
    × (((contains addr xs ≡ true) × (node.key ≡ key))
        ⊎ ((contains addr xs ≡ false) × Owned lib addr key slots))

find-Owned :
    (lib : Library) (addr : Ptr) (key : ℤ) (slots : List (Option (HashNode Ptr)))
    → Owned lib addr key slots
    → find_in_slots lib addr slots ≡ ok key
unfolding find_in_slots load_segment
find-Owned lib addr key [] o = absurd o
find-Owned lib addr key (none ∷ slots) o = find-Owned lib addr key slots o
find-Owned lib addr key (some item ∷ slots) (node, xs, s, o) =
    let looked =
      find-contains (node.attachments.size + 1) addr node.attachments.head lib.memory xs
        (omega (arith, s.attachments.size)) s.attachments.chain in
    elim o [
      | inl (here, same) ↦
          rw (beq_of_ne item.value null s.nonnull, s.object, looked, here) (ap ok same)
      | inr (absent, later) ↦
          rw (beq_of_ne item.value null s.nonnull, s.object, looked, absent)
            (find-Owned lib addr key slots later)
    ]

-- Removing the lock, or keeping it, changes nothing but the calls.
pub destroy_lock-calls :
    (c : LockCalls) (key : ℤ) (lib : Library) (h : Hash Ptr) (item : HashNode Ptr)
    (node : SegmentNode)
    → lib.segment_nodes ≡ some h
    → get_hash_item h key ≡ ok (some item)
    → item.value ≢ null
    → lib.segments item.value ≡ some node
    → (more : List SystemCall) × (destroy_shm_lock c key lib
        ≡ ok (record lib { calls = more ++ lib.calls }))
unfolding destroy_shm_lock remove_lock segment_item load_segment
destroy_lock-calls c key lib h item node table found ne object =
    elim (Bool-cases lib.use_semaphores) [
      | inl on ↦ elim (Bool-cases (unused c.stat)) [
        | inl free ↦ elim (Bool-cases c.remove_fails) [
          | inl fails ↦
              ([], rw (on, table, found, beq_of_ne item.value null ne, object, free, fails) refl)
          | inr done ↦ (
            sem_remove node.lock_id ∷ [],
            rw (on, table, found, beq_of_ne item.value null ne, object, free, done) refl,
          )
        ]
        | inr used ↦ ([], rw (on, table, found, beq_of_ne item.value null ne, object, used) refl)
      ]
      | inr off ↦ ([], rw off refl)
    ]

-- `lib'` differs from `lib` in the attachments of `p`, which no longer have `addr`, in nodes of theirs, in
-- the calls, and perhaps in bytes.
pub record Detaches (addr p : Ptr) (node : SegmentNode) (xs : Cells) (lib lib' : Library)
    : Type 0 where
  pub list : ListHandle
  pub object : lib'.segments p ≡ some (record node { attachments = list })
  pub chain : Seg lib'.memory.nodes null list.head (erase addr xs)
  pub tail : list.tail ≡ before null addr xs
  pub size : list.size ≡ length (erase addr xs)
  pub others : (q : Ptr) → q ≢ p → lib'.segments q ≡ lib.segments q
  pub same : SameOutside xs lib.memory.nodes lib'.memory.nodes
  pub table : lib'.segment_nodes ≡ lib.segment_nodes
  pub calls : (more : List SystemCall) × (lib'.calls ≡ more ++ shm_detach addr ∷ lib.calls)

-- What is left once the address is off the list: the segment's list is `l`, the memory `m`.
abbrev taken_off : Ptr → Ptr → SegmentNode → Library → ListHandle → Memory → Library
taken_off addr p node lib l m =
    put_segment p (record node { attachments = l })
      (called (shm_detach addr) (record lib { memory = m }))

detach-found :
    (c : DetachCalls) (addr : Ptr) (key : ℤ) (lib : Library)
    → find_key_for_address lib addr ≡ ok key
    → (key ==ℤ shm_error) ≡ false
    → c.shmdt_fails ≡ false
    → detach_shm c addr lib ≡ detached c addr key lib
unfolding detach_shm
detach-found c addr key lib found valid works = rw (found, valid, works) refl

pub item-found :
    (lib : Library) (h : Hash Ptr) (key : ℤ) (item : Option (HashNode Ptr))
    → lib.segment_nodes ≡ some h
    → get_hash_item h key ≡ ok item
    → segment_item lib key ≡ ok item
unfolding segment_item
item-found lib h key item table found = rw (table, found) refl

forget-taken :
    (item : HashNode Ptr) (addr : Ptr) (lib : Library) (node : SegmentNode) (b : Bool)
    (l : ListHandle) (m : Memory)
    → item.value ≢ null
    → lib.segments item.value ≡ some node
    → remove_list_item node.attachments addr lib.memory ≡ ok ((b, l), m)
    → forget (some item) addr lib
      ≡ ok (put_segment item.value (record node { attachments = l }) (record lib { memory = m }))
unfolding forget load_segment
forget-taken item addr lib node b l m ne object run =
    rw (beq_of_ne item.value null ne, object, run) refl

detached-taken_off :
    (c : DetachCalls) (addr : Ptr) (key : ℤ) (lib : Library) (h : Hash Ptr) (item : HashNode Ptr)
    (node : SegmentNode) (b : Bool) (l : ListHandle) (m : Memory)
    → lib.segment_nodes ≡ some h
    → get_hash_item h key ≡ ok (some item)
    → item.value ≢ null
    → lib.segments item.value ≡ some node
    → remove_list_item node.attachments addr
        (record lib.memory { bytes = c.unmapped lib.memory.bytes })
      ≡ ok ((b, l), m)
    → detached c addr key lib ≡ (do
      rest ← destroy_shm_lock c.lock key (taken_off addr item.value node lib l m)
      ok (shm_ok, rest))
unfolding detached
detached-taken_off c addr key lib h item node b l m table found ne object run =
    let from =
      called (shm_detach addr)
        (record lib { memory = record lib.memory { bytes = c.unmapped lib.memory.bytes } }) in
    let after : Library → Outcome (ℤ × Library) =
      λ lib. destroy_shm_lock c.lock key lib >>= λ rest. ok (shm_ok, rest) in
    ap (λ o. o >>= λ item. forget item addr from >>= after)
      (item-found from h key (some item) table found)
    ∙ ap (λ o. o >>= after) (forget-taken item addr from node b l m ne object run)

-- detach_shm of an address that belongs to the segment of a key other than -1, where shmdt
-- succeeds, returns SHM_OK, whatever the tails of the lists: the address is taken off the
-- attachments of that segment, and the table and the other segments stay as they were.
pub detach-Detaches :
    (c : DetachCalls) (key : ℤ) (lib : Library) (h : Hash Ptr) (addr p : Ptr) (node : SegmentNode)
    (xs : Cells)
    → Reaches lib h key p node xs
    → Owned lib addr key h.hash_array
    → contains addr xs ≡ true
    → (key ==ℤ shm_error) ≡ false
    → c.shmdt_fails ≡ false
    → (lib' : Library) × (detach_shm c addr lib ≡ ok (shm_ok, lib'))
      × Detaches addr p node xs lib lib'
unfolding find_key_for_address
detach-Detaches c key lib h addr p node xs t o has valid works =
    let mem = record lib.memory { bytes = c.unmapped lib.memory.bytes } in
    let (m', l', run, (chain, tail, size, same, bytes)) =
      remove-erase mem node.attachments addr xs t.segment.attachments has in
    let item : HashNode Ptr = record { key = key; size = t.found.0; value = p } in
    let gone = taken_off addr p node lib l' m' in
    let looked : find_key_for_address lib addr ≡ ok key =
      rw t.table (find-Owned lib addr key h.hash_array o) in
    let (more, unlocked) =
      destroy_lock-calls c.lock key gone h item (record node { attachments = l' }) t.table t.found.1
        t.segment.nonnull (ground arith) in
    (
      record gone { calls = more ++ gone.calls },
      detach-found c addr key lib looked valid works
          ∙ detached-taken_off c addr key lib h item node true l' m' t.table t.found.1
              t.segment.nonnull t.segment.object run
          ∙ ap (λ r. r >>= λ rest. ok (shm_ok, rest)) unlocked,
      record {
        list = l';
        object = ground arith;
        chain = chain;
        tail = tail;
        size = size;
        others = λ q apart. ground arith;
        same = same;
        table = refl;
        calls = (more, refl);
      },
    )
