-- ===== src/SharedMem/Stranded.antt =====
-- Two segments with colliding keys: once the first one is destroyed, the second one cannot be.
use mathlib.Core.Path.{subst}
use legacy_point_monitor.Common.{
  ◌≡◌, ◌≢◌, Bool, sym, ap, ◌∙◌, true, false, none, some, eq_of_some, ℕ,
}
use legacy_point_monitor.Common.Int.{ℤ, ◌==ℤ◌}
use legacy_point_monitor.Common.Outcome.{ok, ◌>>=◌, eq_of_ok}
use legacy_point_monitor.Store.HashTable.{
  HashNode, Hash, slot, get_hash_index, get_hash_item, delete_hash_item,
}
use legacy_point_monitor.Store.HashTable.Table.{IsTable}
use legacy_point_monitor.Store.HashTable.Delete.{delete-Loses}
use legacy_point_monitor.Store.Memory.{Ptr}
use legacy_point_monitor.Store.List.Chain.{Cells}
use legacy_point_monitor.SharedMem.State.{SegmentNode, shm_ok, shm_error, Library}
use legacy_point_monitor.SharedMem.Detach.{DestroyCalls, removed, destroy_item, destroy_shm}
use legacy_point_monitor.SharedMem.Attachments.{Reaches}
use legacy_point_monitor.SharedMem.Detaching.{item-found}
use legacy_point_monitor.SharedMem.Front.{IsFront}
use legacy_point_monitor.SharedMem.Destroying.{destroy-Destroys}

-- destroy_shm of a key that the table leads nowhere does nothing.
destroy-unknown :
    (c : DestroyCalls) (lib : Library) (h : Hash Ptr) (key : ℤ)
    → lib.segment_nodes ≡ some h
    → get_hash_item h key ≡ ok none
    → destroy_shm c key lib ≡ ok (shm_error, lib)
unfolding destroy_shm destroy_item
destroy-unknown c lib h key table nowhere =
    ap (λ o. o >>= λ found. destroy_item c key found lib) (item-found lib h key none table nowhere)

-- Where the key of a segment stands at the index of another key `b`, whose segment is stored
-- elsewhere: under the conditions of destroy-Destroys, destroy_shm of the first key returns SHM_OK,
-- and then destroy_shm of `b` returns SHM_ERROR whatever the kernel answers and does nothing, although
-- the node of `b` is still in the table.
pub destroy-strands :
    (c d : DestroyCalls) (lib : Library) (h : Hash Ptr) (p : Ptr) (node : SegmentNode) (xs : Cells)
    (b : ℤ) (n m : HashNode Ptr)
    → IsTable h
    → Reaches lib h node.key p node xs
    → IsFront lib p xs h.hash_array
    → (node.key ==ℤ shm_error) ≡ false
    → ((i : ℕ) → (c.detach i).shmdt_fails ≡ false)
    → c.remove ≡ removed
    → slot h (get_hash_index h b) ≡ some n
    → n.key ≡ node.key
    → node.key ≢ b
    → get_hash_item h b ≡ ok (some m)
    → (lib' : Library) × (destroy_shm c node.key lib ≡ ok (shm_ok, lib'))
      × (destroy_shm d b lib' ≡ ok (shm_error, lib'))
      × (h' : Hash Ptr) × (lib'.segment_nodes ≡ some h')
      × (j : ℕ) × (slot h' j ≡ some m)
      × (m.key ≡ b)
destroy-strands c d lib h p node xs b n m t r front valid works removal there own apart got =
    let (lib', run, gone) = destroy-Destroys c lib h p node xs t r front valid works removal in
    let (h0, h', table, table', deleted, _) = gone.forgotten in
    let (h1, j, lost, kept, key, nowhere) =
      delete-Loses t b n m there (λ same. apart (sym own ∙ same)) got in
    let same : h ≡ h0 = eq_of_some h h0 (sym r.table ∙ table) in
    let both : ok (true, h1) ≡ ok (true, h') =
      sym lost
      ∙ ap (delete_hash_item h) own
      ∙ ap (λ g. delete_hash_item g node.key) same
      ∙ deleted in
    let left = ap (λ (x : Bool × Hash Ptr). x.1) (eq_of_ok _ _ both) in
    (
      lib',
      run,
      destroy-unknown d lib' h' b table' (ap (λ g. get_hash_item g b) (sym left) ∙ nowhere),
      h',
      table',
      j,
      subst (λ (g : Hash Ptr). slot g j ≡ some m) left kept,
      key,
    )
