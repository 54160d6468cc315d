-- ===== src/Monitor/Refused.antt =====
-- Where monitor_shm cannot attach the segment.
use legacy_point_monitor.Common.{
  ℕ, suc, ◌<◌, ◌≡◌, refl, false, Option, none, some, List, [], ◌∷◌, ◌⊎◌, inl, inr,
}
use legacy_point_monitor.Common.Int.{ℤ, pos}
use legacy_point_monitor.Common.Outcome.{ok}
use legacy_point_monitor.Points.{Float}
use legacy_point_monitor.Store.Memory.{null}
use legacy_point_monitor.Store.HashTable.{iterate_hash}
use legacy_point_monitor.Store.List.Chain.{Cells}
use legacy_point_monitor.SharedMem.State.{SegmentNode, Library, use_semaphores}
use legacy_point_monitor.SharedMem.Connect.{ConnectCalls, nodes_or_new, connect_shm}
use legacy_point_monitor.SharedMem.Show.Listing.{Holds, listing, show-listing}
use legacy_point_monitor.SharedMem.Removals.{connect-refused, connect-unattached}
use legacy_point_monitor.SharedMem.Alone.{lock-off, unlock-off}
use legacy_point_monitor.Install.Startup.{shm_key, shm_size}
use legacy_point_monitor.Monitor.{connecting, segments_shown, duration}
use legacy_point_monitor.Monitor.Program.{MonitorCalls, watch, watch_for, main}

-- shmget or shmat fails.
abbrev pub Refuses : ConnectCalls → Type 0
Refuses c = (c.shmget ≡ none) ⊎ ((shm_id : ℤ) × (c.shmget ≡ some shm_id) × (c.shmat ≡ none))

-- The library with its table, which connect_shm has made if there was none.
abbrev pub tabled : Library → Library
tabled lib = record lib {
  use_semaphores = false;
  segment_nodes = some (nodes_or_new lib.segment_nodes);
}

connect-null :
    (c : ConnectCalls) (key size : ℤ) (lib : Library)
    → Refuses c
    → connect_shm c key size lib
      ≡ ok (null, record lib { segment_nodes = some (nodes_or_new lib.segment_nodes) })
connect-null c key size lib (inl no_segment) = connect-refused c key size lib no_segment
connect-null c key size lib (inr (shm_id, got, not_attached)) =
    connect-unattached c key size shm_id lib got not_attached

module _ {F : Type 0} (f : Float F) (c : MonitorCalls F) where
  pub main-refused :
      (arg : Option ℤ) (n : ℕ) (lib : Library) (segments : List (SegmentNode × Cells))
      → duration arg ≡ pos (suc n)
      → Refuses c.connect
      → 0 < (nodes_or_new lib.segment_nodes).size
      → Holds (tabled lib) (iterate_hash (nodes_or_new lib.segment_nodes)) segments
      → main f c arg lib
        ≡ ok (record {
          status = pos 1;
          segments = listing segments;
          actions = connecting ∷ segments_shown ∷ [];
          library = tabled lib;
        })
  unfolding main watch_for watch use_semaphores
  main-refused arg n lib segments e refuses nonempty holds =
      rw
        (
          e,
          connect-null c.connect shm_key shm_size (record lib { use_semaphores = false }) refuses,
          lock-off c.first_lock shm_key (tabled lib) refl,
          show-listing (tabled lib) (nodes_or_new lib.segment_nodes) segments refl nonempty holds,
          unlock-off c.first_unlock shm_key (tabled lib) refl,
        )
        refl
