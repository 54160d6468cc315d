-- ===== src/SharedMem/Reconnect.antt =====
-- connect_shm after detach_shm: what the `tail` that remove_list_item leaves does to the program.
use mathlib.Core.Path.{subst}
use legacy_point_monitor.Common.{
  ◌≡◌, ◌≢◌, refl, sym, ap, ◌∙◌, true, false, some, ◌∷◌, beq_of_ne, beq_refl,
}
use legacy_point_monitor.Common.Int.{ℤ, ◌==ℤ◌}
use legacy_point_monitor.Common.Outcome.{ok, fault, eq_of_ok}
use legacy_point_monitor.Store.HashTable.{Hash}
use legacy_point_monitor.Store.Memory.{Ptr, null}
use legacy_point_monitor.Store.List.Chain.{Cells, Seg}
use legacy_point_monitor.Store.List.Push.{Readable}
use legacy_point_monitor.Store.List.Remove.{contains}
use legacy_point_monitor.Store.List.Tail.{push-no_tail}
use legacy_point_monitor.SharedMem.State.{SegmentNode, shm_ok, shm_error, Library, load_segment}
use legacy_point_monitor.SharedMem.Connect.{
  ConnectCalls, pointer_bytes, segment_for, attach_to, connect_shm,
}
use legacy_point_monitor.SharedMem.Detach.{DetachCalls, detach_shm}
use legacy_point_monitor.SharedMem.Attachments.{Tracks-Reaches, Tracks, Grants, granted}
use legacy_point_monitor.SharedMem.Detaching.{Owned, Detaches, detach-Detaches}

attach_faults :
    (c : ConnectCalls) (lib : Library) (addr p : Ptr) (node : SegmentNode)
    → p ≢ null
    → lib.segments p ≡ some node
    → c.item_at ≢ null
    → Readable lib.memory addr pointer_bytes
    → node.attachments.head ≢ null
    → node.attachments.tail ≡ null
    → attach_to c addr (some p) lib ≡ fault
unfolding attach_to load_segment
attach_faults c lib addr p node ne object ine readable head tail =
    let push =
      push-no_tail lib.memory node.attachments c.item_at addr pointer_bytes ine readable head
        tail in
    rw (beq_of_ne p null ne, object, push) refl

connect_faults :
    (c : ConnectCalls) (key size shm_id : ℤ) (lib lib' : Library) (h : Hash Ptr)
    (addr p a v b w : Ptr) (node : SegmentNode) (xs : Cells)
    → Tracks lib h key p node ((a, v) ∷ (b, w) ∷ xs)
    → Detaches v p node ((a, v) ∷ (b, w) ∷ xs) lib lib'
    → Grants c lib' shm_id addr
    → connect_shm c key size lib' ≡ fault
unfolding segment_for
connect_faults c key size shm_id lib lib' h addr p a v b w node xs t d g =
    let here = beq_refl v in
    let chain : Seg lib'.memory.nodes null d.list.head ((b, w) ∷ xs) = rw here at d.chain in
    let tail : d.list.tail ≡ null = rw here at d.tail in
    granted c key size shm_id lib' h addr (rw (d.table ∙ t.table) refl) g (some _) t.found.1
    ∙ attach_faults c _ addr p _ t.segment.nonnull d.object g.item g.readable
        (λ z. chain.2 (sym chain.1 ∙ z)) tail

-- Once detach_shm has detached the first of two or more attachments of a segment, connect_shm for
-- its key, where shmget and shmat succeed, writes through NULL.
pub reconnect_faults :
    (d : DetachCalls) (c : ConnectCalls) (key size shm_id : ℤ) (lib lib' : Library) (h : Hash Ptr)
    (addr p a v b w : Ptr) (node : SegmentNode) (xs : Cells)
    → Tracks lib h key p node ((a, v) ∷ (b, w) ∷ xs)
    → Owned lib v key h.hash_array
    → (key ==ℤ shm_error) ≡ false
    → d.shmdt_fails ≡ false
    → detach_shm d v lib ≡ ok (shm_ok, lib')
    → Grants c lib' shm_id addr
    → connect_shm c key size lib' ≡ fault
reconnect_faults d c key size shm_id lib lib' h addr p a v b w node xs t o valid works run g =
    let first : contains v ((a, v) ∷ (b, w) ∷ xs) ≡ true = rw (beq_refl v) refl in
    let (after, again, detaches) =
      detach-Detaches d key lib h v p node _ (Tracks-Reaches t) o first valid works in
    let same : after ≡ lib' = ap (λ (r : ℤ × Library). r.1) (eq_of_ok _ _ (sym again ∙ run)) in
    connect_faults c key size shm_id lib lib' h addr p a v b w node xs t
      (subst (Detaches v p node ((a, v) ∷ (b, w) ∷ xs) lib) same detaches) g
