-- ===== src/Monitor/Returned.antt =====
-- Every run of monitor_shm in a process that has connected to no segment yet.
use legacy_point_monitor.Common.{
  ℕ, zero, suc, ◌≡◌, ◌≢◌, refl, false, Option, none, some, [], ◌∷◌, ◌++◌, Bool-cases, Option-cases,
  inl, inr, arith, beq_of_ne,
}
use legacy_point_monitor.Common.Int.{ℤ, pos, negsuc, minus_one, ◌==ℤ◌}
use legacy_point_monitor.Common.Outcome.{ok, Ensures, first_returns}
use legacy_point_monitor.Points.{Float}
use legacy_point_monitor.Store.Memory.{Ptr, null}
use legacy_point_monitor.Store.HashTable.{new_hash, iterate_hash}
use legacy_point_monitor.SharedMem.State.{shm_error, Library, use_semaphores}
use legacy_point_monitor.SharedMem.Connect.{ConnectCalls}
use legacy_point_monitor.SharedMem.Detach.{DetachCalls, find_key_for_address, detach_shm}
use legacy_point_monitor.SharedMem.Attachments.{Grants}
use legacy_point_monitor.SharedMem.Removals.{has_removed}
use legacy_point_monitor.SharedMem.Show.Listing.{listing}
use legacy_point_monitor.SharedMem.Alone.{
  lock-off, unlock-off, IsAlone, connect-IsAlone, detach-IsAlone, show-Enters,
}
use legacy_point_monitor.Install.Startup.{shm_key, shm_size}
use legacy_point_monitor.Monitor.{connecting, segments_shown, detached, duration, countdown}
use legacy_point_monitor.Monitor.Program.{MonitorCalls, Monitored, watch, watch_for, main}
use legacy_point_monitor.Monitor.Attached.{main-Spares}
use legacy_point_monitor.Monitor.Completed.{locked_rounds, rounds-countdown}
use legacy_point_monitor.Monitor.Refused.{Refuses, main-refused}

-- Where the kernel maps the segment, it maps it at an address, and malloc and the memory serve.
abbrev pub Lends : ConnectCalls → Library → Type 0
Lends c lib =
    (shm_id : ℤ) (addr : Ptr)
    → c.shmget ≡ some shm_id
    → c.shmat ≡ some addr
    → (addr ≢ null) × Grants c lib shm_id addr

-- detach_shm of the one address returns, whatever shmdt answers.
detach-returns :
    (c : ConnectCalls) (d : DetachCalls) (key shm_id : ℤ) (addr : Ptr) (lib lib' : Library)
    → IsAlone c key shm_id addr lib lib'
    → (key ==ℤ shm_error) ≡ false
    → (r : ℤ × Library) × (detach_shm d addr lib' ≡ ok r)
unfolding detach_shm
detach-returns c d key shm_id addr lib lib' a valid = elim (Bool-cases d.shmdt_fails) [
  | inr works ↦
      let (last, run, _, _) = detach-IsAlone c d key shm_id addr lib lib' a valid works in (_, run)
  | inl fails ↦
      let (last, run, _, _) =
        detach-IsAlone c (record d { shmdt_fails = false }) key shm_id addr lib lib' a valid refl in
      let (found, looked, _) = first_returns (find_key_for_address lib' addr) _ run in
      elim (Bool-cases (found ==ℤ shm_error)) [
        | inl unknown ↦ ((shm_error, lib'), rw (looked, unknown) refl)
        | inr known ↦ ((shm_error, lib'), rw (looked, known, fails) refl)
      ]
]

module _ {F : Type 0} (f : Float F) (c : MonitorCalls F) where
  abbrev Returns : Option ℤ → Library → Type 0
  Returns arg lib = (run : Monitored F) × (main f c arg lib ≡ ok run)

  watch-attached :
      (n : ℕ) (shm_id : ℤ) (addr : Ptr) (lib : Library)
      → lib.segment_nodes ≡ none
      → lib.use_semaphores ≡ false
      → c.connect.node_at ≢ null
      → addr ≢ null
      → Grants c.connect lib shm_id addr
      → (run : Monitored F) × (watch f c (suc n) lib ≡ ok run)
  unfolding watch
  watch-attached n shm_id addr lib blank off ne attached g =
      let (mid, connected, a) =
        connect-IsAlone c.connect shm_key shm_size shm_id lib addr blank off ne g in
      let (last, gone) = detach-returns c.connect c.detach shm_key shm_id addr lib mid a refl in
      let run : Monitored F = record {
        status = pos 0;
        segments = listing ((a.enters.node, (c.connect.item_at, addr) ∷ []) ∷ []);
        actions =
            connecting ∷ segments_shown ∷ countdown f (locked_rounds f c) (suc n) 0 []
            ++ detached ∷ [];
        library = last.1;
      } in
      (
        run,
        rw
            (
              connected,
              lock-off c.first_lock shm_key mid a.off,
              show-Enters c.connect shm_key shm_id addr 4095 mid a.enters,
              unlock-off c.first_unlock shm_key mid a.off,
              beq_of_ne addr null attached,
              rounds-countdown f c (suc n) 0 mid a.off,
              gone,
            )
            refl,
      )

  main-refused_here :
      (arg : Option ℤ) (n : ℕ) (lib : Library)
      → duration arg ≡ pos (suc n)
      → lib.segment_nodes ≡ none
      → Refuses c.connect
      → Returns arg lib
  main-refused_here arg n lib e blank refuses = (
    _,
    main-refused f c arg n lib [] e refuses (rw blank (unfold new_hash in omega arith))
        (rw blank (unfold iterate_hash new_hash in tt)),
  )

  main-attached :
      (arg : Option ℤ) (n : ℕ) (lib : Library) (shm_id : ℤ) (addr : Ptr)
      → duration arg ≡ pos (suc n)
      → lib.segment_nodes ≡ none
      → c.connect.node_at ≢ null
      → addr ≢ null
      → Grants c.connect lib shm_id addr
      → Returns arg lib
  unfolding main watch_for use_semaphores
  main-attached arg n lib shm_id addr e blank ne attached g =
      let (run, ran) =
        watch-attached n shm_id addr (record lib { use_semaphores = false }) blank refl ne attached
          (record {
            got = g.got;
            attached = g.attached;
            readable = g.readable;
            item = g.item;
            unused = g.unused;
          }) in
      (run, rw e ran)

  main-ends :
      (arg : Option ℤ) (lib : Library)
      → lib.segment_nodes ≡ none
      → c.connect.node_at ≢ null
      → Lends c.connect lib
      → Returns arg lib
  unfolding main watch_for
  main-ends arg lib blank ne lends = for_duration (duration arg) refl
    where
      refused : Monitored F
      refused = record {
        status = minus_one;
        segments = [];
        actions = [];
        library = use_semaphores false lib;
      }

      for_duration : (d : ℤ) → duration arg ≡ d → Returns arg lib
      for_duration (pos zero) e = (refused, rw e refl)
      for_duration (negsuc n) e = (refused, rw e refl)
      for_duration (pos (suc n)) e = elim (Option-cases c.connect.shmget) [
        | inl no_segment ↦ main-refused_here arg n lib e blank (inl no_segment)
        | inr (shm_id, got) ↦ elim (Option-cases c.connect.shmat) [
          | inl not_attached ↦ main-refused_here arg n lib e blank (inr (shm_id, got, not_attached))
          | inr (addr, at) ↦
              let (ne_addr, grants) = lends shm_id addr got at in
              main-attached arg n lib shm_id addr e blank ne ne_addr grants
        ]
      ]

  -- monitor_shm in a process without a table of segments, where malloc and the memory serve:
  -- whatever the argument, the answers of shmget, shmat, shmdt and the locks, and the signals, main
  -- returns or exits, without a fault, and its calls have removed a segment only if one had been
  -- removed before.
  pub main-returns :
      (arg : Option ℤ) (lib : Library)
      → lib.segment_nodes ≡ none
      → c.connect.node_at ≢ null
      → Lends c.connect lib
      → (run : Monitored F) × (main f c arg lib ≡ ok run)
        × (has_removed run.library.calls ≡ has_removed lib.calls)
  main-returns arg lib blank ne lends =
      let (run, ran) = main-ends arg lib blank ne lends in
      let kept : Ensures (λ (r : Monitored F). has_removed r.library.calls ≡ has_removed lib.calls)
          (main f c arg lib) =
        main-Spares f c arg lib in
      (run, ran, rw ran at kept)
