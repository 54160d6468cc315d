-- ===== src/SharedMem/Show.antt =====
-- show_segments of src/lib/shmlib/shared_mem.c. A line of the log is a value.
pub mod Listing
use legacy_point_monitor.Common.{
  ℕ, zero, suc, ◌+◌, ◌-◌, Bool, Option, none, some, List, [], ◌∷◌, ◌++◌, ltb, ◌==◌, if◌then◌else◌,
}
use legacy_point_monitor.Common.Int.{ℤ}
use legacy_point_monitor.Common.Outcome.{Outcome, ok, out_of_fuel, ◌>>=◌}
use legacy_point_monitor.Store.HashTable.{HashNode, Hash, iterate_hash}
use legacy_point_monitor.Store.Memory.{Ptr, null, load}
use legacy_point_monitor.SharedMem.State.{Library, load_segment}

-- A segment with its number of attachments; an attachment, the last one with a mark of its own; the
-- line for no segments.
pub data SegmentLine : Type 0 where
  segment : (key shm_id size : ℤ) (attachments : ℕ) → SegmentLine
  attachment : Ptr → SegmentLine
  last_attachment : Ptr → SegmentLine
  no_segments : SegmentLine

abbrev pub attachment_line : Bool → Ptr → SegmentLine
attachment_line is_last addr = if is_last then last_attachment addr else attachment addr

-- `while (list_node != NULL)`, where `attachments` is decremented before it is compared with 0.
show_attachments : ℕ → ℕ → Ptr → Library → Outcome (List SegmentLine)
show_attachments zero attachments list_node lib = out_of_fuel
show_attachments (suc fuel) attachments list_node lib = if list_node == null then ok [] else do
  n ← load list_node lib.memory
  rest ← show_attachments fuel (attachments - 1) n.0.next lib
  ok (attachment_line (attachments == 1) n.0.value ∷ rest)

unfoldable pub show_segment_node : HashNode Ptr → Library → Outcome (List SegmentLine)
unfolding show_attachments load_segment
show_segment_node item lib = do
  node ← load_segment lib item.value
  lines ←
      show_attachments (node.attachments.size + 1) node.attachments.size node.attachments.head lib
  ok (segment node.key node.shm_id node.size node.attachments.size ∷ lines)

-- show_segment_node on each node, in order.
show_each : List (HashNode Ptr) → Library → Outcome (List SegmentLine)
show_each [] lib = ok []
show_each (item ∷ items) lib = do
  lines ← show_segment_node item lib
  rest ← show_each items lib
  ok (lines ++ rest)

abbrev show_table : Option (Hash Ptr) → Library → Outcome (List SegmentLine)
show_table none lib = ok (no_segments ∷ [])
show_table (some h) lib =
    if ltb 0 h.size then show_each (iterate_hash h) lib else ok (no_segments ∷ [])

unfoldable pub show_segments : Library → Outcome (List SegmentLine)
unfolding show_each
show_segments lib = show_table lib.segment_nodes lib
