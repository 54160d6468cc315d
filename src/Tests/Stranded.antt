-- ===== src/Tests/Stranded.antt =====
-- Two segments whose keys have the same index in a table of three slots.
use legacy_point_monitor.Common.{ℕ, ◌≡◌, refl, true, none, some, [], arith, inl}
use legacy_point_monitor.Common.Int.{pos, to_u32}
use legacy_point_monitor.Common.Outcome.{ok}
use legacy_point_monitor.Store.HashTable.{Hash, slot, get_hash_index, get_hash_item}
use legacy_point_monitor.Store.Memory.{Ptr, update}
use legacy_point_monitor.SharedMem.State.{SegmentNode, Library, shm_ok, shm_error}
use legacy_point_monitor.SharedMem.Detach.{destroy_shm}
use legacy_point_monitor.SharedMem.Attachments.{Reaches}
use legacy_point_monitor.SharedMem.Stranded.{destroy-strands}
use legacy_point_monitor.Tests.HashTable.{entry, pair, pair-IsTable, pair_found}
use legacy_point_monitor.Tests.SharedMem.{chain, cells, segment, destroying}

abbrev other : SegmentNode
other = record segment {
  key = pos 4;
  shm_id = pos 8;
  attachments = record { size = 0; head = 0; tail = 0 };
}

abbrev colliding : Library
colliding = record {
  segment_nodes = some pair;
  use_semaphores = true;
  segments = update (update (λ p. none) 10 (some segment)) 40 (some other);
  memory = record { nodes = chain; bytes = λ p. some 0 };
  calls = [];
}

first_found : get_hash_item pair (pos 1) ≡ ok (some (entry (pos 1) 10))
unfolding get_hash_item to_u32
first_found = refl

first-Reaches : Reaches colliding pair (pos 1) 10 segment cells
first-Reaches = record {
  table = refl;
  found = (8, first_found);
  segment = record {
    nonnull = omega arith;
    object = refl;
    attachments = record {
      chain = (2, refl, omega arith, refl, refl, (0, refl, omega arith, refl, refl, refl));
      size = refl;
    };
  };
}

destroy-strands_example :
    (lib' : Library) × (destroy_shm destroying (pos 1) colliding ≡ ok (shm_ok, lib'))
    × (destroy_shm destroying (pos 4) lib' ≡ ok (shm_error, lib'))
    × (h' : Hash Ptr) × (lib'.segment_nodes ≡ some h')
    × (j : ℕ) × (slot h' j ≡ some (entry (pos 4) 40))
    × (pos 4 ≡ pos 4)
destroy-strands_example =
    destroy-strands destroying destroying colliding pair 10 segment cells (pos 4) (entry (pos 1) 10)
      (entry (pos 4) 40) pair-IsTable first-Reaches (inl refl) refl (λ i. refl) refl
      (unfold get_hash_index to_u32 in refl) refl (λ z. ground arith) pair_found
