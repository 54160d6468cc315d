-- ===== src/SharedMem/Show/Listing.antt =====
-- What show_segments logs.
use legacy_point_monitor.Common.{
  ℕ, zero, suc, ◌+◌, ◌-◌, ◌<◌, ◌≡◌, refl, ap, ◌∙◌, true, some, List, [], ◌∷◌, ◌++◌, ◌==◌, ltb,
  arith, length, beq_of_ne,
}
use legacy_point_monitor.Common.Outcome.{ok}
use legacy_point_monitor.Store.HashTable.{HashNode, Hash, iterate_hash}
use legacy_point_monitor.Store.Memory.{Ptr, null, load-ok}
use legacy_point_monitor.Store.List.Chain.{Cells, Seg}
use legacy_point_monitor.Store.List.Loops.{values}
use legacy_point_monitor.SharedMem.State.{SegmentNode, Library, load_segment}
use legacy_point_monitor.SharedMem.Attachments.{HasChain}
use legacy_point_monitor.SharedMem.Show.{
  SegmentLine, segment, attachment, last_attachment, attachment_line, show_attachments,
  show_segment_node, show_each, show_table, show_segments,
}

-- A line for each address, the last one marked.
unfoldable pub marked : List Ptr → List SegmentLine
marked [] = []
marked (v ∷ []) = last_attachment v ∷ []
marked (v ∷ w ∷ vs) = attachment v ∷ marked (w ∷ vs)

-- The lines for segments with these attachments.
unfoldable pub listing : List (SegmentNode × Cells) → List SegmentLine
unfolding marked
listing [] = []
listing ((node, xs) ∷ segments) =
    segment node.key node.shm_id node.size (length xs) ∷ marked (values xs) ++ listing segments

-- The nodes of the table lead to these segments, in order.
abbrev pub Holds : Library → List (HashNode Ptr) → List (SegmentNode × Cells) → Type 0
Holds lib [] [] = Unit
Holds lib [] (s ∷ segments) = ⊥
Holds lib (item ∷ items) [] = ⊥
Holds lib (item ∷ items) ((node, xs) ∷ segments) =
    HasChain lib item.value node xs × Holds lib items segments

mark-first :
    (a v : Ptr) (xs : Cells)
    → attachment_line (length ((a, v) ∷ xs) == 1) v ∷ marked (values xs)
      ≡ marked (values ((a, v) ∷ xs))
unfolding marked
mark-first a v [] = refl
mark-first a v ((b, w) ∷ xs) = ground arith

attachments-marked :
    (fuel : ℕ) (at : Ptr) (xs : Cells) (lib : Library)
    → length xs < fuel
    → Seg lib.memory.nodes null at xs
    → show_attachments fuel (length xs) at lib ≡ ok (marked (values xs))
unfolding show_attachments marked
attachments-marked zero at xs lib lt s = absurd (omega arith)
attachments-marked (suc fuel) at [] lib lt s = rw s refl
attachments-marked (suc fuel) at ((a, v) ∷ xs) lib lt (q, e, ne, there, out, s) =
    let less : suc (length xs) - 1 ≡ length xs = omega arith in
    rw
      (
        e,
        beq_of_ne a null ne,
        load-ok lib.memory ne there,
        less,
        attachments-marked fuel q xs lib (omega arith) s,
      )
      (ap ok (mark-first a v xs))

node-listed :
    (item : HashNode Ptr) (lib : Library) (node : SegmentNode) (xs : Cells)
    → HasChain lib item.value node xs
    → show_segment_node item lib
      ≡ ok (segment node.key node.shm_id node.size (length xs) ∷ marked (values xs))
unfolding show_segment_node load_segment
node-listed item lib node xs s =
    let lines =
      attachments-marked (length xs + 1) node.attachments.head xs lib (omega arith)
        s.attachments.chain in
    rw (beq_of_ne item.value null s.nonnull, s.object, s.attachments.size, lines) refl

each-listing :
    (items : List (HashNode Ptr)) (segments : List (SegmentNode × Cells)) (lib : Library)
    → Holds lib items segments
    → show_each items lib ≡ ok (listing segments)
unfolding show_each listing
each-listing [] [] lib holds = refl
each-listing [] (s ∷ segments) lib holds = absurd holds
each-listing (item ∷ items) [] lib holds = absurd holds
each-listing (item ∷ items) ((node, xs) ∷ segments) lib (first, rest) =
    rw (node-listed item lib node xs first, each-listing items segments lib rest) refl

-- With a table, show_segments logs for each segment in it, in the order of the slots, its key, id,
-- size and number of attachments, and then their addresses in order, the last one marked; the tails
-- of the lists do not matter.
pub show-listing :
    (lib : Library) (h : Hash Ptr) (segments : List (SegmentNode × Cells))
    → lib.segment_nodes ≡ some h
    → 0 < h.size
    → Holds lib (iterate_hash h) segments
    → show_segments lib ≡ ok (listing segments)
unfolding show_segments
show-listing lib h segments table nonempty holds =
    let more : ltb 0 h.size ≡ true = ground arith in
    ap (λ o. show_table o lib) table ∙ rw more (each-listing (iterate_hash h) segments lib holds)
