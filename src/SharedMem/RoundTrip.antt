-- ===== src/SharedMem/RoundTrip.antt =====
-- detach_shm of the address that connect_shm returned takes the attachments back to what they were.
use legacy_point_monitor.Common.{
  ◌≡◌, ◌≢◌, ap, ◌∙◌, ◌⊎◌, inl, inr, true, false, Option, none, some, List, [], ◌∷◌, ◌++◌, arith,
  length,
}
use legacy_point_monitor.Common.Int.{ℤ, ◌==ℤ◌}
use legacy_point_monitor.Common.Outcome.{Outcome, ok, ◌>>=◌}
use legacy_point_monitor.Store.HashTable.{HashNode, Hash}
use legacy_point_monitor.Store.Memory.{Ptr, null}
use legacy_point_monitor.Store.List.{ListHandle}
use legacy_point_monitor.Store.List.Chain.{
  Cells, has, last_or, Seg, Seg-frame, has-append, not-has_of_none,
}
use legacy_point_monitor.Store.List.Remove.{contains, erase, before}
use legacy_point_monitor.SharedMem.State.{SegmentNode, shm_ok, shm_error, Library}
use legacy_point_monitor.SharedMem.Connect.{ConnectCalls, connect_shm}
use legacy_point_monitor.SharedMem.Detach.{DetachCalls, detach_shm}
use legacy_point_monitor.SharedMem.Attachments.{
  Tracks-Reaches, HasSegment-HasChain, HasSegment, Tracks, Grants, Attaches, connect-again,
}
use legacy_point_monitor.SharedMem.Detaching.{Owned, detach-Detaches}

contains-append : (v : Ptr) (xs : Cells) (a : Ptr) → contains v (xs ++ (a, v) ∷ []) ≡ true
contains-append v [] a = ground arith
contains-append v ((b, w) ∷ xs) a = ground (arith, contains-append v xs a)

erase-append :
    (v : Ptr) (xs : Cells) (a : Ptr) → contains v xs ≡ false → erase v (xs ++ (a, v) ∷ []) ≡ xs
erase-append v [] a new = ground arith
erase-append v ((b, w) ∷ xs) a new = ground (arith, erase-append v xs a)

before-append :
    (d v : Ptr) (xs : Cells) (a : Ptr)
    → contains v xs ≡ false
    → before d v (xs ++ (a, v) ∷ []) ≡ last_or d xs
before-append d v [] a new = ground arith
before-append d v ((b, w) ∷ xs) a new = ground (arith, before-append b v xs a)

abbrev pub Apart : Cells → Cells → Type 0
Apart xs ys = (a : Ptr) → has a ys ≡ true → has a xs ≡ false

-- The segment `p`, with the attachments `xs`, comes before any other segment with the address, and the
-- lists up to there are well formed and share no node with that of `p`.
abbrev pub ComesFirst : Library → Ptr → Ptr → Cells → List (Option (HashNode Ptr)) → Type 0
ComesFirst lib addr p xs [] = ⊥
ComesFirst lib addr p xs (none ∷ slots) = ComesFirst lib addr p xs slots
ComesFirst lib addr p xs (some item ∷ slots) =
    (item.value ≡ p)
    ⊎ ((item.value ≢ p)
        × (node : SegmentNode) × (ys : Cells) × HasSegment lib item.value node ys
        × (contains addr ys ≡ false)
        × Apart xs ys
        × ComesFirst lib addr p xs slots)

module _ {c : ConnectCalls} {addr p : Ptr} {node : SegmentNode} {xs : Cells} {lib lib' : Library}
    (a : Attaches c addr p node xs lib lib') (unused : lib.memory.nodes c.item_at ≡ none) where
  HasSegment-other :
      (q : Ptr) (other : SegmentNode) (ys : Cells)
      → q ≢ p
      → HasSegment lib q other ys
      → Apart xs ys
      → HasSegment lib' q other ys
  HasSegment-other q other ys ne s apart =
      let free =
        not-has_of_none lib.memory.nodes other.attachments.head ys c.item_at unused
          s.attachments.chain in
      let kept : (b : Ptr) → has b ys ≡ true → lib'.memory.nodes b ≡ lib.memory.nodes b =
        λ b i. a.same b (outside b i free) in
      record {
        nonnull = s.nonnull;
        object = a.others q ne ∙ s.object;
        attachments = record {
          chain =
              Seg-frame lib.memory.nodes lib'.memory.nodes null other.attachments.head ys kept
                s.attachments.chain;
          tail = s.attachments.tail;
          size = s.attachments.size;
        };
      }
    where
      outside :
          (b : Ptr)
          → has b ys ≡ true
          → has c.item_at ys ≡ false
          → has b (xs ++ (c.item_at, addr) ∷ []) ≡ false
      outside b i free = ground (arith, has-append b xs ((c.item_at, addr) ∷ []), apart b i)

  ComesFirst-Owned :
      (key : ℤ) (slots : List (Option (HashNode Ptr)))
      → node.key ≡ key
      → ComesFirst lib addr p xs slots
      → Owned lib' addr key slots
  ComesFirst-Owned key [] k first = first
  ComesFirst-Owned key (none ∷ slots) k first = ComesFirst-Owned key slots k first
  ComesFirst-Owned key (some item ∷ slots) k (inl e) = (
    record node { attachments = a.list },
    xs ++ (c.item_at, addr) ∷ [],
    rw e (HasSegment-HasChain a.segment),
    inl (contains-append addr xs c.item_at, k),
  )
  ComesFirst-Owned key (some item ∷ slots) k (inr (ne, other, ys, s, absent, apart, later)) = (
    other,
    ys,
    HasSegment-HasChain (HasSegment-other item.value other ys ne s apart),
    inr (absent, ComesFirst-Owned key slots k later),
  )

-- connect_shm and then detach_shm of the address that it returned.
abbrev pub both : ConnectCalls → DetachCalls → (key size : ℤ) → Library → Outcome (ℤ × Library)
both c d key size lib = do r ← connect_shm c key size lib; detach_shm d r.0 r.1

-- For a key other than -1 with a segment that does not have the new address yet, where shmget,
-- shmat and shmdt succeed and no earlier segment has that address or nodes of this one, connect_shm
-- and then detach_shm of the address that it returned leave the key with the same attachments as
-- before, in a well-formed list, and the other segments and the table as they were.
pub connect-detach :
    (c : ConnectCalls) (d : DetachCalls) (key size shm_id : ℤ) (lib : Library) (h : Hash Ptr)
    (addr p : Ptr) (node : SegmentNode) (xs : Cells)
    → Tracks lib h key p node xs
    → node.key ≡ key
    → Grants c lib shm_id addr
    → ComesFirst lib addr p xs h.hash_array
    → contains addr xs ≡ false
    → (key ==ℤ shm_error) ≡ false
    → d.shmdt_fails ≡ false
    → (lib' : Library) × (list : ListHandle) × (both c d key size lib ≡ ok (shm_ok, lib'))
      × Tracks lib' h key p (record node { attachments = list }) xs
      × ((q : Ptr) → q ≢ p → lib'.segments q ≡ lib.segments q)
connect-detach c d key size shm_id lib h addr p node xs t k g first new valid works =
    let (mid, connected, a) = connect-again c key size shm_id lib h addr p node xs t g in
    let tracked : Tracks mid h key p (record node { attachments = a.list })
        (xs ++ (c.item_at, addr) ∷ []) =
      record { table = a.table ∙ t.table; found = t.found; segment = a.segment } in
    let (lib', detached, x) =
      detach-Detaches d key mid h addr p (record node { attachments = a.list })
        (xs ++ (c.item_at, addr) ∷ []) (Tracks-Reaches tracked)
        (ComesFirst-Owned a g.unused key h.hash_array k first) (contains-append addr xs c.item_at)
        valid works in
    let erased = erase-append addr xs c.item_at new in
    let chain : Seg lib'.memory.nodes null x.list.head xs = rw erased at x.chain in
    (
      lib',
      x.list,
      ap (λ o. o >>= λ r. detach_shm d r.0 r.1) connected ∙ detached,
      record {
        table = x.table ∙ a.table ∙ t.table;
        found = t.found;
        segment = record {
          nonnull = t.segment.nonnull;
          object = x.object;
          attachments = record {
            chain = chain;
            tail = x.tail ∙ before-append null addr xs c.item_at new;
            size = x.size ∙ ap length erased;
          };
        };
      },
      λ q ne. x.others q ne ∙ a.others q ne,
    )
