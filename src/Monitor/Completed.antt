-- ===== src/Monitor/Completed.antt =====
-- A whole run of monitor_shm: the countdown, and what is done to the segment.
use mathlib.Core.List.{append_assoc}
use legacy_point_monitor.Common.{
  ℕ, zero, suc, ◌+◌, ◌≡◌, ◌≢◌, refl, ap, ◌∙◌, inl, inr, true, false, Option, none, List, [], ◌∷◌,
  ◌++◌, Bool-cases, beq_of_ne,
}
use legacy_point_monitor.Common.Int.{ℤ, pos}
use legacy_point_monitor.Common.Outcome.{ok}
use legacy_point_monitor.Points.{Float}
use legacy_point_monitor.Store.Memory.{Ptr, null}
use legacy_point_monitor.SharedMem.State.{SegmentNode, Library, use_semaphores}
use legacy_point_monitor.SharedMem.Show.Listing.{listing}
use legacy_point_monitor.SharedMem.Front.{has_detached}
use legacy_point_monitor.SharedMem.Attachments.{Grants}
use legacy_point_monitor.SharedMem.Removals.{has_removed}
use legacy_point_monitor.SharedMem.Alone.{
  lock-off, unlock-off, connect-IsAlone, detach-IsAlone, show-Enters,
}
use legacy_point_monitor.Install.Startup.{shm_key, shm_size}
use legacy_point_monitor.Monitor.{
  Action, connecting, segments_shown, detached, duration, Rounds, round, countdown, monitor_for,
  monitor_main,
}
use legacy_point_monitor.Monitor.Countdown.{
  reports, seconds_slept, EndsDetached, StopsAt, main-counts,
}
use legacy_point_monitor.Monitor.Program.{
  MonitorCalls, Monitored, round_on, rounds_on, watch, watch_for, main,
}

module _ {F : Type 0} (f : Float F) where
  -- The rounds as they are when every lock is taken.
  abbrev pub locked_rounds : MonitorCalls F → Rounds F
  locked_rounds c = record c.rounds { lock = λ i. true }

  round-on-off :
      (c : MonitorCalls F) (i : ℕ) (lib : Library)
      → lib.use_semaphores ≡ false
      → round_on f c i lib ≡ ok (round f (locked_rounds c) i, lib)
  unfolding round_on round
  round-on-off c i lib off =
      rw (lock-off (c.rounds.lock i) shm_key lib off, unlock-off (c.unlock i) shm_key lib off) refl

  pub rounds-countdown :
      (c : MonitorCalls F) (seconds i : ℕ) (lib : Library)
      → lib.use_semaphores ≡ false
      → rounds_on f c seconds i lib ≡ ok (countdown f (locked_rounds c) seconds i [], lib)
  unfolding rounds_on countdown
  rounds-countdown c zero i lib off = refl
  rounds-countdown c (suc seconds) i lib off = elim (Bool-cases (c.rounds.running i)) [
    | inl on ↦ rw (on, round-on-off c i lib off, rounds-countdown c seconds (i + 1) lib off) refl
    | inr stopped ↦ rw stopped refl
  ]

  countdown-append :
      (r : Rounds F) (seconds i : ℕ) (after : List (Action F))
      → countdown f r seconds i [] ++ after ≡ countdown f r seconds i after
  unfolding countdown
  countdown-append r zero i after = refl
  countdown-append r (suc seconds) i after = elim (Bool-cases (r.running i)) [
    | inl on ↦ rw on (
        append_assoc (round f r i) (countdown f r seconds (i + 1) []) after
        ∙ ap (λ z. round f r i ++ z) (countdown-append r seconds (i + 1) after))
    | inr stopped ↦ rw stopped refl
  ]

  -- What a run leaves of a library with no segments: the new one was listed, attached and detached.
  pub record Completes (c : MonitorCalls F) (arg : Option ℤ) (shm_id : ℤ) (addr : Ptr) (k : ℕ)
      (lib : Library) (run : Monitored F) : Type 0 where
    pub status : run.status ≡ pos 0
    pub node : SegmentNode
    pub own_key : node.key ≡ shm_key
    pub id : node.shm_id ≡ shm_id
    pub segments : run.segments ≡ listing ((node, (c.connect.item_at, addr) ∷ []) ∷ [])
    pub as_planned : run.actions ≡ (monitor_main f (locked_rounds c) arg true).0
    pub reports_made : reports run.actions ≡ k
    pub slept_for : seconds_slept run.actions ≡ k
    pub ends : EndsDetached run.actions
    pub let_go : has_detached addr run.library.calls ≡ true
    pub spared : has_removed run.library.calls ≡ has_removed lib.calls

  module _ (c : MonitorCalls F) (n k : ℕ) (shm_id : ℤ) (addr : Ptr) where
    watch-Completes :
        (arg : Option ℤ) (lib : Library)
        → duration arg ≡ pos (suc n)
        → StopsAt c.rounds (suc n) 0 k
        → lib.segment_nodes ≡ none
        → lib.use_semaphores ≡ false
        → c.connect.node_at ≢ null
        → addr ≢ null
        → Grants c.connect lib shm_id addr
        → c.detach.shmdt_fails ≡ false
        → (run : Monitored F) × (watch f c (suc n) lib ≡ ok run)
          × Completes c arg shm_id addr k lib run
    unfolding watch monitor_main monitor_for
    watch-Completes arg lib e s blank off ne attached g works =
        let (mid, connected, a) =
          connect-IsAlone c.connect shm_key shm_size shm_id lib addr blank off ne g in
        let (last, gone, let_go, spared) =
          detach-IsAlone c.connect c.detach shm_key shm_id addr lib mid a refl works in
        let stops : StopsAt (locked_rounds c) (suc n) 0 k = record {
          within = s.within;
          runs = s.runs;
          stops = s.stops;
        } in
        let end = main-counts f (locked_rounds c) arg n k e stops in
        let whole = countdown-append (locked_rounds c) (suc n) 0 (detached ∷ []) in
        let acts = countdown f (locked_rounds c) (suc n) 0 (detached ∷ []) in
        let listed = show-Enters c.connect shm_key shm_id addr 4095 mid a.enters in
        let run : Monitored F = record {
          status = pos 0;
          segments = listing ((a.enters.node, (c.connect.item_at, addr) ∷ []) ∷ []);
          actions = connecting ∷ segments_shown ∷ acts;
          library = last;
        } in
        (
          run,
          rw
              (
                connected,
                lock-off c.first_lock shm_key mid a.off,
                listed,
                unlock-off c.first_unlock shm_key mid a.off,
                beq_of_ne addr null attached,
                rounds-countdown c (suc n) 0 mid a.off,
                gone,
                whole,
              )
              refl,
          record {
            status = refl;
            node = a.enters.node;
            own_key = a.enters.own_key;
            id = a.enters.id;
            segments = refl;
            as_planned = rw e refl;
            reports_made = rw e at end.0;
            slept_for = rw e at end.1;
            ends = rw e at end.2;
            let_go = let_go;
            spared = spared;
          },
        )

    -- monitor_shm in a process without a table of segments, with a duration of at least a second
    -- and where shmget, shmat, shmdt and malloc succeed: main comes to its end with the status 0,
    -- whatever the answers to the locks; it has listed the new segment alone, done what the plan of
    -- the countdown says with every lock taken, reported and slept once in each round until the
    -- time was up or `Running` was false, and detached the segment without removing any.
    pub main-Completes :
        (arg : Option ℤ) (lib : Library)
        → duration arg ≡ pos (suc n)
        → StopsAt c.rounds (suc n) 0 k
        → lib.segment_nodes ≡ none
        → c.connect.node_at ≢ null
        → addr ≢ null
        → Grants c.connect lib shm_id addr
        → c.detach.shmdt_fails ≡ false
        → (run : Monitored F) × (main f c arg lib ≡ ok run) × Completes c arg shm_id addr k lib run
    unfolding main watch_for use_semaphores
    main-Completes arg lib e s blank ne attached g works =
        let (run, ran, done) =
          watch-Completes arg (record lib { use_semaphores = false }) e s blank refl ne attached
            (record {
              got = g.got;
              attached = g.attached;
              readable = g.readable;
              item = g.item;
              unused = g.unused;
            })
            works in
        (
          run,
          rw e ran,
          record {
            status = done.status;
            node = done.node;
            own_key = done.own_key;
            id = done.id;
            segments = done.segments;
            as_planned = done.as_planned;
            reports_made = done.reports_made;
            slept_for = done.slept_for;
            ends = done.ends;
            let_go = done.let_go;
            spared = done.spared;
          },
        )
