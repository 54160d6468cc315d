-- ===== src/SharedMem/Attachments.antt =====
-- connect_shm adds an address to the attachments of its segment.
use legacy_point_monitor.Common.{
  ℕ, ◌≡◌, ◌≢◌, refl, sym, ◌∙◌, Option, none, some, [], ◌∷◌, ◌++◌, arith, beq_of_ne,
}
use legacy_point_monitor.Common.Int.{ℤ}
use legacy_point_monitor.Common.Outcome.{ok, ◌>>=◌}
use legacy_point_monitor.Store.HashTable.{HashNode, Hash, get_hash_item}
use legacy_point_monitor.Store.Memory.{Ptr, null, Memory}
use legacy_point_monitor.Store.List.{ListHandle}
use legacy_point_monitor.Store.List.Chain.{Cells, IsList, IsChain, IsList-IsChain, SameOutside}
use legacy_point_monitor.Store.List.Push.{Readable, push-append}
use legacy_point_monitor.SharedMem.State.{
  SegmentNode, shm_attach, Library, load_segment, put_segment, called,
}
use legacy_point_monitor.SharedMem.Connect.{
  ConnectCalls, pointer_bytes, nodes_or_new, segment_for, attach_to, connect_at, connect_shm,
}

-- The segment of the item has the attachments `xs`.
pub record HasSegment (lib : Library) (p : Ptr) (node : SegmentNode) (xs : Cells) : Type 0 where
  pub nonnull : p ≢ null
  pub object : lib.segments p ≡ some node
  pub attachments : IsList lib.memory.nodes node.attachments xs

-- The same, whatever the tail of the list is.
pub record HasChain (lib : Library) (p : Ptr) (node : SegmentNode) (xs : Cells) : Type 0 where
  pub nonnull : p ≢ null
  pub object : lib.segments p ≡ some node
  pub attachments : IsChain lib.memory.nodes node.attachments xs

pub HasSegment-HasChain :
    {lib : Library} {p : Ptr} {node : SegmentNode} {xs : Cells}
    → HasSegment lib p node xs
    → HasChain lib p node xs
HasSegment-HasChain s = record {
  nonnull = s.nonnull;
  object = s.object;
  attachments = IsList-IsChain s.attachments;
}

-- The table leads the key to that segment.
pub record Tracks (lib : Library) (h : Hash Ptr) (key : ℤ) (p : Ptr) (node : SegmentNode)
    (xs : Cells) : Type 0 where
  pub table : lib.segment_nodes ≡ some h
  pub found :
      (m : ℕ) × (get_hash_item h key ≡ ok (some (record { key = key; size = m; value = p })))
  pub segment : HasSegment lib p node xs

-- The table leads the key to a segment whose list may have any tail.
pub record Reaches (lib : Library) (h : Hash Ptr) (key : ℤ) (p : Ptr) (node : SegmentNode)
    (xs : Cells) : Type 0 where
  pub table : lib.segment_nodes ≡ some h
  pub found :
      (m : ℕ) × (get_hash_item h key ≡ ok (some (record { key = key; size = m; value = p })))
  pub segment : HasChain lib p node xs

pub Tracks-Reaches :
    {lib : Library} {h : Hash Ptr} {key : ℤ} {p : Ptr} {node : SegmentNode} {xs : Cells}
    → Tracks lib h key p node xs
    → Reaches lib h key p node xs
Tracks-Reaches t = record {
  table = t.table;
  found = t.found;
  segment = HasSegment-HasChain t.segment;
}

-- The memory of the process once the segment is attached.
abbrev pub with_mapping : ConnectCalls → Memory → Memory
with_mapping c m = record m { bytes = c.mapped m.bytes }

-- shmget and shmat succeed with the address, whose bytes the process may then use, and malloc gives an
-- unused address for the list's node.
pub record Grants (c : ConnectCalls) (lib : Library) (shm_id : ℤ) (addr : Ptr) : Type 0 where
  pub got : c.shmget ≡ some shm_id
  pub attached : c.shmat ≡ some addr
  pub readable : Readable (with_mapping c lib.memory) addr pointer_bytes
  pub item : c.item_at ≢ null
  pub unused : lib.memory.nodes c.item_at ≡ none

-- `lib'` differs from `lib` in the attachments of `p`, with one more at the end, in the nodes of these,
-- and perhaps in bytes.
pub record Attaches (c : ConnectCalls) (addr p : Ptr) (node : SegmentNode) (xs : Cells)
    (lib lib' : Library) : Type 0 where
  pub list : ListHandle
  pub segment :
      HasSegment lib' p (record node { attachments = list }) (xs ++ (c.item_at, addr) ∷ [])
  pub others : (q : Ptr) → q ≢ p → lib'.segments q ≡ lib.segments q
  pub same : SameOutside (xs ++ (c.item_at, addr) ∷ []) lib.memory.nodes lib'.memory.nodes
  pub table : lib'.segment_nodes ≡ lib.segment_nodes

pub attach-Attaches :
    (c : ConnectCalls) (lib : Library) (addr p : Ptr) (node : SegmentNode) (xs : Cells)
    → HasSegment lib p node xs
    → Readable lib.memory addr pointer_bytes
    → c.item_at ≢ null
    → lib.memory.nodes c.item_at ≡ none
    → (lib' : Library) × (attach_to c addr (some p) lib ≡ ok (addr, lib'))
      × Attaches c addr p node xs lib lib'
unfolding attach_to load_segment
attach-Attaches c lib addr p node xs s readable ne unused =
    let (m', l', run, (is, same, bytes)) =
      push-append lib.memory node.attachments xs c.item_at addr pointer_bytes s.attachments ne
        unused readable in
    (
      put_segment p (record node { attachments = l' }) (record lib { memory = m' }),
      rw (beq_of_ne p null s.nonnull, s.object, run) refl,
      record {
        list = l';
        segment = record { nonnull = s.nonnull; object = ground arith; attachments = is };
        others = λ q apart. ground arith;
        same = same;
        table = refl;
      },
    )

-- The library once the segment is attached at `addr`.
abbrev pub ready : ConnectCalls → Ptr → Hash Ptr → Library → Library
ready c addr h lib =
    called (shm_attach addr)
      (record lib { segment_nodes = some h; memory = with_mapping c lib.memory })

pub granted :
    (c : ConnectCalls) (key size shm_id : ℤ) (lib : Library) (h : Hash Ptr) (addr : Ptr)
    → nodes_or_new lib.segment_nodes ≡ h
    → Grants c lib shm_id addr
    → (item : Option (HashNode Ptr)) → get_hash_item h key ≡ ok item
    → connect_shm c key size lib
      ≡ (do r ← segment_for c key size shm_id h item (ready c addr h lib); attach_to c addr r.0 r.1)
unfolding connect_shm connect_at
granted c key size shm_id lib h addr new g item found = rw (g.got, g.attached, new, found) refl

-- connect_shm for a key with a segment, where shmget and shmat succeed, returns the new address, which
-- becomes the last attachment of the segment; the table and the other segments stay as they were.
pub connect-again :
    (c : ConnectCalls) (key size shm_id : ℤ) (lib : Library) (h : Hash Ptr) (addr p : Ptr)
    (node : SegmentNode) (xs : Cells)
    → Tracks lib h key p node xs
    → Grants c lib shm_id addr
    → (lib' : Library) × (connect_shm c key size lib ≡ ok (addr, lib'))
      × Attaches c addr p node xs lib lib'
unfolding segment_for
connect-again c key size shm_id lib h addr p node xs t g =
    let (lib', run, a) =
      attach-Attaches c (ready c addr h lib) addr p node xs
        (record {
          nonnull = t.segment.nonnull;
          object = t.segment.object;
          attachments = t.segment.attachments;
        })
        g.readable g.item g.unused in
    (
      lib',
      granted c key size shm_id lib h addr (rw t.table refl) g (some _) t.found.1 ∙ run,
      record {
        list = a.list;
        segment = a.segment;
        others = a.others;
        same = a.same;
        table = a.table ∙ sym t.table;
      },
    )
