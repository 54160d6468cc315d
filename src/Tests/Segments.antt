-- ===== src/Tests/Segments.antt =====
-- The segment that is attached twice, listed and destroyed.
use legacy_point_monitor.Common.{ℕ, zero, suc, ◌≡◌, refl, some, [], ◌∷◌, arith, inl, eq_of_some}
use legacy_point_monitor.Common.Int.{pos, to_u32}
use legacy_point_monitor.Common.Outcome.{ok}
use legacy_point_monitor.Store.HashTable.{HashNode, slot, get_hash_index, iterate_hash}
use legacy_point_monitor.Store.HashTable.Probe.{walk}
use legacy_point_monitor.Store.HashTable.Table.{Reached, IsTable}
use legacy_point_monitor.Store.Memory.{Ptr}
use legacy_point_monitor.SharedMem.State.{shm_ok, Library}
use legacy_point_monitor.SharedMem.Detach.{destroy_shm}
use legacy_point_monitor.SharedMem.Show.{
  segment as segment_line, attachment, last_attachment, show_segments,
}
use legacy_point_monitor.SharedMem.Show.Listing.{listing, show-listing, Holds}
use legacy_point_monitor.SharedMem.Attachments.{Tracks-Reaches, HasSegment-HasChain}
use legacy_point_monitor.SharedMem.Destroying.{Destroys, destroy-Destroys}
use legacy_point_monitor.Tests.SharedMem.{
  item, table, segment, twice, cells, twice-Tracks, twice-HasSegment, destroying,
}

table_placed : (i : ℕ) (n : HashNode Ptr) → slot table i ≡ some n → Reached table i n
unfolding get_hash_index to_u32 walk
table_placed zero n e = cc
table_placed (suc zero) n e = rw (← eq_of_some item n e) (0, omega arith, tt, refl)
table_placed (suc (suc zero)) n e = cc
table_placed (suc (suc (suc i))) n e = cc

table-IsTable : IsTable table
table-IsTable = record { nonempty = omega arith; width = refl; placed = table_placed }

destroy-Destroys_example :
    (lib' : Library) × (destroy_shm destroying (pos 1) twice ≡ ok (shm_ok, lib'))
    × Destroys 50 segment cells twice lib'
destroy-Destroys_example =
    destroy-Destroys destroying twice table 50 segment cells table-IsTable
      (Tracks-Reaches twice-Tracks) (inl refl) refl (λ i. refl) refl

twice-Holds : Holds twice (iterate_hash table) ((segment, cells) ∷ [])
unfolding iterate_hash
twice-Holds = (HasSegment-HasChain twice-HasSegment, tt)

show-listing_example : show_segments twice ≡ ok (listing ((segment, cells) ∷ []))
show-listing_example =
    show-listing twice table ((segment, cells) ∷ []) refl (omega arith) twice-Holds

listed :
    listing ((segment, cells) ∷ [])
    ≡ segment_line (pos 1) (pos 7) (pos 240) 2 ∷ attachment 100 ∷ last_attachment 101 ∷ []
unfolding listing
listed = refl
