-- ===== src/SharedMem/Destroying.antt =====
-- destroy_shm detaches every address of a segment, and removes it.
use legacy_point_monitor.Common.{
  ℕ, zero, suc, ◌+◌, ◌<◌, ◌≡◌, ◌≢◌, refl, sym, ap, ◌∙◌, inl, inr, Bool, true, false, none, some,
  List, [], ◌∷◌, ◌++◌, ◌==◌, arith, length, beq_of_ne, beq_refl, Bool-cases,
}
use legacy_point_monitor.Common.Int.{ℤ, ◌==ℤ◌}
use legacy_point_monitor.Common.Outcome.{ok, ◌>>=◌}
use legacy_point_monitor.Store.HashTable.{HashNode, Hash, get_hash_item, delete_hash_item}
use legacy_point_monitor.Store.HashTable.Table.{IsTable}
use legacy_point_monitor.Store.HashTable.Delete.{get-delete}
use legacy_point_monitor.Store.Memory.{Ptr, null, load-ok}
use legacy_point_monitor.Store.List.{ListHandle}
use legacy_point_monitor.Store.List.Chain.{Cells}
use legacy_point_monitor.Store.List.Remove.{contains}
use legacy_point_monitor.SharedMem.State.{
  SegmentNode, SystemCall, shm_detach, shm_remove, shm_ok, shm_error, Library, load_segment, called,
}
use legacy_point_monitor.SharedMem.Detach.{
  DetachCalls, DestroyCalls, Removal, removed, detach_each, destroy_item, remove_segment,
  delete_segment, destroy_shm,
}
use legacy_point_monitor.SharedMem.Attachments.{Reaches}
use legacy_point_monitor.SharedMem.Detaching.{
  Detaches, detach-Detaches, destroy_lock-calls, item-found,
}
use legacy_point_monitor.SharedMem.Front.{
  IsFront, IsFront-Owned, has_detached, IsFront-kept, next-Reaches, detached-append, Seg-start,
}

-- The attachments of `p` are all off, the calls of shmdt were made, and the table and the other segments
-- are as they were.
pub record Empties (p : Ptr) (node : SegmentNode) (xs : Cells) (lib lib' : Library) : Type 0 where
  pub list : ListHandle
  pub object : lib'.segments p ≡ some (record node { attachments = list })
  pub head : list.head ≡ null
  pub others : (q : Ptr) → q ≢ p → lib'.segments q ≡ lib.segments q
  pub table : lib'.segment_nodes ≡ lib.segment_nodes
  pub asked : (v : Ptr) → contains v xs ≡ true → has_detached v lib'.calls ≡ true
  pub kept : (v : Ptr) → has_detached v lib.calls ≡ true → has_detached v lib'.calls ≡ true

module _ {v a p : Ptr} {node : SegmentNode} {xs : Cells} {lib mid lib' : Library}
    (d : Detaches v p node ((a, v) ∷ xs) lib mid)
    (e : Empties p (record node { attachments = d.list }) xs mid lib') where
  mid_calls :
      (w : Ptr) → has_detached w (shm_detach v ∷ lib.calls) ≡ true → has_detached w mid.calls ≡ true
  mid_calls w h =
      ap (has_detached w) d.calls.1 ∙ detached-append w d.calls.0 (shm_detach v ∷ lib.calls) h

  pub first-Empties : Empties p node ((a, v) ∷ xs) lib lib'
  first-Empties = record {
    list = e.list;
    object = e.object;
    head = e.head;
    others = λ q ne. e.others q ne ∙ d.others q ne;
    table = e.table ∙ d.table;
    asked = λ w h. elim (Bool-cases (v == w)) [
      | inl same ↦ e.kept w (mid_calls w (rw same refl))
      | inr other ↦ e.asked w (rw other at h)
    ];
    kept = λ w h. e.kept w (mid_calls w (ground arith));
  }

module _ (c : ℕ → DetachCalls) (works : (i : ℕ) → (c i).shmdt_fails ≡ false) {h : Hash Ptr}
    {p : Ptr} where
  detach_each-Empties :
      (fuel i : ℕ) (at : Ptr) (node : SegmentNode) (xs : Cells) (lib : Library)
      → length xs < fuel
      → (node.key ==ℤ shm_error) ≡ false
      → node.attachments.head ≡ at
      → Reaches lib h node.key p node xs
      → IsFront lib p xs h.hash_array
      → (lib' : Library) × (detach_each c fuel i at lib ≡ ok lib') × Empties p node xs lib lib'
  unfolding detach_each
  detach_each-Empties zero i at node xs lib lt valid e r front = absurd (omega arith)
  detach_each-Empties (suc fuel) i at node [] lib lt valid e r front =
      let ended : at ≡ null = sym e ∙ r.segment.attachments.chain in
      (
        lib,
        rw ended refl,
        record {
          list = node.attachments;
          object = r.segment.object;
          head = r.segment.attachments.chain;
          others = λ q ne. refl;
          table = refl;
          asked = λ v z. cc;
          kept = λ v z. z;
        },
      )
  detach_each-Empties (suc fuel) i at node ((a, v) ∷ xs) lib lt valid e r front =
      let (q, first, ne, there, out, rest) = r.segment.attachments.chain in
      let here : contains v ((a, v) ∷ xs) ≡ true = rw (beq_refl v) refl in
      let (mid, run, d) =
        detach-Detaches (c i) node.key lib h v p node ((a, v) ∷ xs) r
          (IsFront-Owned lib p node ((a, v) ∷ xs) v h.hash_array r.segment here front) here valid
          (works i) in
      let next = next-Reaches d r in
      let start = Seg-start _ _ d.list.head q xs next.segment.attachments.chain rest in
      let (lib', loop, empties) =
        detach_each-Empties fuel (i + 1) q (record node { attachments = d.list }) xs mid
          (omega arith) valid start next (IsFront-kept d h.hash_array front) in
      let at_first : at ≡ a = sym e ∙ first in
      (
        lib',
        rw (at_first, beq_of_ne a null ne, load-ok lib.memory ne there, run) loop,
        first-Empties d empties,
      )

-- What destroy_shm leaves of a segment.
pub record Destroys (p : Ptr) (node : SegmentNode) (xs : Cells) (lib lib' : Library) : Type 0 where
  pub emptied :
      (list : ListHandle) × (lib'.segments p ≡ some (record node { attachments = list }))
      × (list.head ≡ null)
  pub forgotten :
      (h h' : Hash Ptr) × (lib.segment_nodes ≡ some h)
      × (lib'.segment_nodes ≡ some h')
      × (delete_hash_item h node.key ≡ ok (true, h'))
      × (get_hash_item h' node.key ≡ ok none)
  pub others : (q : Ptr) → q ≢ p → lib'.segments q ≡ lib.segments q
  pub detached : (v : Ptr) → contains v xs ≡ true → has_detached v lib'.calls ≡ true
  pub removed_last : (more : List SystemCall) × (lib'.calls ≡ shm_remove node.shm_id ∷ more)

delete-entry :
    (key : ℤ) (lib : Library) (h h' : Hash Ptr) (b : Bool)
    → lib.segment_nodes ≡ some h
    → delete_hash_item h key ≡ ok (b, h')
    → delete_segment key lib ≡ ok (record lib { segment_nodes = some h' })
unfolding delete_segment
delete-entry key lib h h' b table deleted = rw (table, deleted) refl

remove-entry :
    (answer : Removal) (key shm_id : ℤ) (lib : Library) (h h' : Hash Ptr) (b : Bool)
    → answer ≡ removed
    → lib.segment_nodes ≡ some h
    → delete_hash_item h key ≡ ok (b, h')
    → remove_segment answer key shm_id lib
      ≡ ok (shm_ok, record (called (shm_remove shm_id) lib) { segment_nodes = some h' })
unfolding remove_segment
remove-entry answer key shm_id lib h h' b done table deleted =
    rw (done, delete-entry key (called (shm_remove shm_id) lib) h h' b table deleted) refl

-- destroy_shm of a key other than -1 with a segment in a well-formed table, where shmdt and shmctl
-- succeed and no earlier segment in the table has one of its addresses or nodes, returns SHM_OK,
-- whatever the tails of the lists: shmdt was called for each of the addresses, none is left on the
-- list, the segment was removed after that, the table no longer leads the key anywhere, and the
-- other segments are as they were.
pub destroy-Destroys :
    (c : DestroyCalls) (lib : Library) (h : Hash Ptr) (p : Ptr) (node : SegmentNode) (xs : Cells)
    → IsTable h
    → Reaches lib h node.key p node xs
    → IsFront lib p xs h.hash_array
    → (node.key ==ℤ shm_error) ≡ false
    → ((i : ℕ) → (c.detach i).shmdt_fails ≡ false)
    → c.remove ≡ removed
    → (lib' : Library) × (destroy_shm c node.key lib ≡ ok (shm_ok, lib'))
      × Destroys p node xs lib lib'
unfolding destroy_shm destroy_item load_segment
destroy-Destroys c lib h p node xs t r front valid works removal =
    let item : HashNode Ptr = record { key = node.key; size = r.found.0; value = p } in
    let (mid, loop, e) =
      detach_each-Empties c.detach works (node.attachments.size + 1) 0 node.attachments.head node xs
        lib (omega (arith, r.segment.attachments.size)) valid refl r front in
    let table = e.table ∙ r.table in
    let (more, unlocked) =
      destroy_lock-calls c.lock node.key mid h item (record node { attachments = e.list }) table
        r.found.1 r.segment.nonnull e.object in
    let (h', deleted, gone) = get-delete t node.key item r.found.1 in
    let calls = shm_remove node.shm_id ∷ more ++ mid.calls in
    (
      record mid { calls = calls; segment_nodes = some h' },
      ap (λ o. o >>= λ found. destroy_item c node.key found lib)
            (item-found lib h node.key (some item) r.table r.found.1)
          ∙ rw (beq_of_ne p null r.segment.nonnull, r.segment.object, loop, unlocked)
              (remove-entry c.remove node.key node.shm_id (record mid { calls = more ++ mid.calls })
                h h' true removal table deleted),
      record {
        emptied = (e.list, e.object, e.head);
        forgotten = (h, h', r.table, refl, deleted, gone);
        others = e.others;
        detached = λ v i. detached-append v more mid.calls (e.asked v i);
        removed_last = (more ++ mid.calls, refl);
      },
    )
