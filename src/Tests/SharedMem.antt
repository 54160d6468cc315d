-- ===== src/Tests/SharedMem.antt =====
-- A table of three slots, with one segment that is attached twice.
use legacy_point_monitor.Common.{◌≡◌, refl, none, some, true, false, List, [], ◌∷◌, arith, inl}
use legacy_point_monitor.Common.Int.{pos, to_u32}
use legacy_point_monitor.Common.Outcome.{Outcome, ok, fault, ◌>>=◌}
use legacy_point_monitor.Store.HashTable.{
  HashNode, Hash, new_hash, get_hash_item, insert_hash_item, delete_hash_item,
}
use legacy_point_monitor.Store.HashTable.Table.{vacancies, new_hash-IsTable}
use legacy_point_monitor.Store.Memory.{
  Ptr, null, node, Nodes, update, load, create, set_next, load_byte, store_byte,
}
use legacy_point_monitor.Store.List.{new_list, push_list_item, remove_list_item}
use legacy_point_monitor.Store.List.Chain.{Cells}
use legacy_point_monitor.SharedMem.State.{
  SegmentNode, SystemCall, sem_wait, sem_post, sem_remove, shm_remove, shm_detach, shm_ok, Library,
  use_semaphores, shm_lock, shm_unlock,
}
use legacy_point_monitor.SharedMem.Connect.{ConnectCalls, connect_shm}
use legacy_point_monitor.SharedMem.Detach.{
  attached, removed, DetachCalls, DestroyCalls, detach_shm, destroy_shm,
}
use legacy_point_monitor.SharedMem.Attachments.{
  HasSegment-HasChain, Tracks-Reaches, HasSegment, Tracks, Grants,
}
use legacy_point_monitor.SharedMem.Entering.{Enters, connect-first}
use legacy_point_monitor.SharedMem.Detaching.{Owned, Detaches, detach-Detaches}
use legacy_point_monitor.SharedMem.Reconnect.{reconnect_faults}
use legacy_point_monitor.SharedMem.RoundTrip.{both, connect-detach}
use legacy_point_monitor.Store.List.{ListHandle}
use legacy_point_monitor.Common.{◌≢◌}

program : Unit {0}
unfolding new_hash insert_hash_item delete_hash_item get_hash_item to_u32 new_list push_list_item
    remove_list_item load create set_next load_byte store_byte use_semaphores shm_lock shm_unlock
    connect_shm detach_shm destroy_shm
program = tt

-- The kernel gives the address, and malloc the addresses for the structures.
abbrev pub granting : Ptr → Ptr → Ptr → ConnectCalls
granting addr node_at item_at = record {
  shmget = some (pos 7);
  shmat = some addr;
  semget = pos 9;
  semop_fails = false;
  node_at = node_at;
  item_at = item_at;
  mapped = λ bytes p. some 0;
}

abbrev pub detaching : DetachCalls
detaching = record {
  shmdt_fails = false;
  lock = record { stat = attached 0; remove_fails = false };
  unmapped = λ bytes. bytes;
}

abbrev pub destroying : DestroyCalls
destroying = record {
  detach = λ i. record detaching { lock = record { stat = attached 1; remove_fails = false } };
  lock = record { stat = attached 0; remove_fails = false };
  remove = removed;
}

abbrev empty : Library
empty = record {
  segment_nodes = some (new_hash 3);
  use_semaphores = true;
  segments = λ p. none;
  memory = record { nodes = λ p. none; bytes = λ p. none };
  calls = [];
}

connect-first_example :
    (lib' : Library) × (connect_shm (granting 100 50 1) (pos 1) (pos 240) empty ≡ ok (100, lib'))
    × Enters (granting 100 50 1) (pos 1) (pos 7) 100 (new_hash 3) lib'
unfolding program vacancies
connect-first_example =
    connect-first (granting 100 50 1) (pos 1) (pos 240) (pos 7) empty (new_hash 3) 100 refl
      (new_hash-IsTable 3 (omega arith)) (omega arith) refl (omega arith) (λ on. refl)
      (record {
        got = refl;
        attached = refl;
        readable = λ i lt. (0, refl);
        item = omega arith;
        unused = refl;
      })

abbrev pub item : HashNode Ptr
item = record { key = pos 1; size = 24; value = 50 }

abbrev pub table : Hash Ptr
table = record { size = 3; hash_array = none ∷ some item ∷ none ∷ [] }

abbrev pub chain : Nodes
chain = update (update (λ p. none) 1 (some (node 100 2))) 2 (some (node 101 null))

abbrev pub segment : SegmentNode
segment = record {
  key = pos 1;
  shm_id = pos 7;
  lock_id = pos 9;
  size = pos 240;
  attachments = record { size = 2; head = 1; tail = 2 };
}

abbrev pub twice : Library
twice = record {
  segment_nodes = some table;
  use_semaphores = true;
  segments = update (λ p. none) 50 (some segment);
  memory = record { nodes = chain; bytes = λ p. some 0 };
  calls = [];
}

abbrev pub cells : Cells
cells = (1, 100) ∷ (2, 101) ∷ []

pub twice-HasSegment : HasSegment twice 50 segment cells
twice-HasSegment = record {
  nonnull = omega arith;
  object = refl;
  attachments = record {
    chain = (2, refl, omega arith, refl, refl, (null, refl, omega arith, refl, refl, refl));
    tail = refl;
    size = refl;
  };
}

table-read : get_hash_item table (pos 1) ≡ ok (some item)
unfolding program
table-read = refl

pub twice-Tracks : Tracks twice table (pos 1) 50 segment cells
twice-Tracks = record { table = refl; found = (24, table-read); segment = twice-HasSegment }

third-Grants : Grants (granting 102 60 3) twice (pos 7) 102
third-Grants = record {
  got = refl;
  attached = refl;
  readable = λ i lt. (0, refl);
  item = omega arith;
  unused = refl;
}

first-Owned : Owned twice 100 (pos 1) table.hash_array
first-Owned = (segment, cells, HasSegment-HasChain twice-HasSegment, inl (refl, refl))

detach-Detaches_example :
    (lib' : Library) × (detach_shm detaching 100 twice ≡ ok (shm_ok, lib'))
    × Detaches 100 50 segment cells twice lib'
detach-Detaches_example =
    detach-Detaches detaching (pos 1) twice table 100 50 segment cells (Tracks-Reaches twice-Tracks)
      first-Owned refl refl refl

-- The library after the first address is detached.
abbrev once : Library
once = record twice {
  segments =
      update twice.segments 50
        (some (record segment { attachments = record { size = 1; head = 2; tail = null } }));
  calls = sem_remove (pos 9) ∷ shm_detach 100 ∷ [];
}

detached_once : detach_shm detaching 100 twice ≡ ok (shm_ok, once)
unfolding program
detached_once = refl

reconnect_faults_example : connect_shm (granting 102 60 3) (pos 1) (pos 240) once ≡ fault
reconnect_faults_example =
    reconnect_faults detaching (granting 102 60 3) (pos 1) (pos 240) (pos 7) twice once table 102 50
      1 100 2 101 segment [] twice-Tracks first-Owned refl refl detached_once
      (record {
        got = refl;
        attached = refl;
        readable = λ i lt. (0, refl);
        item = omega arith;
        unused = refl;
      })

-- What the kernel is asked for, the last call first.
abbrev calls_of : {A : Type 0} → Outcome (A × Library) → List SystemCall
calls_of (ok (a, lib)) = lib.calls
calls_of _ = []

destroyed :
    calls_of (destroy_shm destroying (pos 1) twice)
    ≡ shm_remove (pos 7) ∷ sem_remove (pos 9) ∷ shm_detach 101 ∷ shm_detach 100 ∷ []
unfolding program
destroyed = refl

locked :
    calls_of (do a ← shm_lock true (pos 1) twice; shm_unlock true (pos 1) a.1)
    ≡ sem_post (pos 9) ∷ sem_wait (pos 9) ∷ []
unfolding program
locked = refl

connect-detach_example :
    (lib' : Library) × (list : ListHandle) × (both
        (granting 102 60 3)
        detaching
        (pos 1)
        (pos 240)
        twice
      ≡ ok (shm_ok, lib'))
    × Tracks lib' table (pos 1) 50 (record segment { attachments = list }) cells
    × ((q : Ptr) → q ≢ 50 → lib'.segments q ≡ twice.segments q)
connect-detach_example =
    connect-detach (granting 102 60 3) detaching (pos 1) (pos 240) (pos 7) twice table 102 50
      segment cells twice-Tracks refl third-Grants (inl refl) refl refl refl
