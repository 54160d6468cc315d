-- ===== src/Install/Startup/Destroyed.antt =====
-- The segment of install_data, from the start of main to its end.
use legacy_point_monitor.Common.{
  ℕ, ◌≡◌, ◌≢◌, refl, ◌∙◌, true, false, Bool, Option, none, some, List, [], ◌∷◌, map, arith,
  beq_of_ne,
}
use legacy_point_monitor.Common.Int.{ℤ}
use legacy_point_monitor.Common.Outcome.{ok}
use legacy_point_monitor.Store.Memory.{Ptr, null}
use legacy_point_monitor.Threads.State as ThreadState
use legacy_point_monitor.Threads.State.{Function}
use legacy_point_monitor.Threads.Signals.{th_uninstall_signal_handler}
use legacy_point_monitor.Threads.Api.{InitCalls, sigint, sigquit}
use legacy_point_monitor.Threads.Dispatch.{Works}
use legacy_point_monitor.Threads.Bindings.{Refines, rebound}
use legacy_point_monitor.Threads.Rebinding.{uninstall-Refines}
use legacy_point_monitor.SharedMem.State as SharedState
use legacy_point_monitor.SharedMem.State.{SegmentNode, use_semaphores}
use legacy_point_monitor.SharedMem.Detach.{DestroyCalls, removed, destroy_shm}
use legacy_point_monitor.SharedMem.Attachments.{Grants}
use legacy_point_monitor.SharedMem.Destroying.{Destroys}
use legacy_point_monitor.SharedMem.Show.Listing.{listing}
use legacy_point_monitor.SharedMem.Alone.{
  lock-off, unlock-off, IsAlone, connect-IsAlone, destroy-IsAlone, show-Enters,
}
use legacy_point_monitor.Points.{PointTask, show_task}
use legacy_point_monitor.Install.{read_lines}
use legacy_point_monitor.Install.Tasks.{ItemList, FileLine, Loaded, no_tasks, tasks_shown}
use legacy_point_monitor.Install.Tasks.Loading.{
  pushes, found_lines, HasPlaces, Keeps, lines-Keeps, Keeps-walked,
}
use legacy_point_monitor.Install.Startup.{
  shm_key, shm_size, sighup, arguments, install_handlers, StartCalls, Started, attach, start_up,
  finish,
}
use legacy_point_monitor.Install.Startup.Handlers.{
  InitSucceeds, Begins, init-Begins, handlers-reached,
}

module _ (list : ItemList) {F : Type 0} (c : StartCalls F) (shm_id : ℤ) (addr : Ptr) where
  -- What main has before its loop.
  pub record Starts (tasks : List (PointTask F)) (segments : SharedState.Library)
      (s : Started list F) : Type 0 where
    pub tasks_read : Keeps list s.tasks tasks []
    pub tasks_logged : s.task_lines ≡ map show_task tasks
    pub at : s.address ≡ addr
    pub alone : IsAlone c.connect shm_key shm_id addr segments s.segments
    pub listed :
        s.segment_lines ≡ listing ((alone.enters.node, (c.connect.item_at, addr) ∷ []) ∷ [])

  attach-Starts :
      (lines : List (FileLine F)) (threads : ThreadState.Library) (segments : SharedState.Library)
      → list.Room list.new (pushes lines)
      → HasPlaces {F = F} (λ p. none) lines
      → segments.segment_nodes ≡ none
      → segments.use_semaphores ≡ false
      → c.connect.node_at ≢ null
      → addr ≢ null
      → Grants c.connect segments shm_id addr
      → (s : Started list F) × (attach list c lines threads segments ≡ ok s)
        × (s.threads ≡ threads)
        × Starts (read_lines [] (found_lines lines)) segments s
  unfolding attach tasks_shown
  attach-Starts lines threads segments room places blank off ne attached g =
      let (mid, connected, a) =
        connect-IsAlone c.connect shm_key shm_size shm_id segments addr blank off ne g in
      let (loaded, read, keeps) =
        lines-Keeps list lines [] (no_tasks list)
          (record { pointers = []; holds = list.new-Holds; leads = tt; room = room }) places in
      let tasks = read_lines [] (found_lines lines) in
      let walked = Keeps-walked list loaded tasks [] keeps in
      let listed = show-Enters c.connect shm_key shm_id addr 4095 mid a.enters in
      (
        record {
          tasks = loaded;
          task_lines = map show_task tasks;
          threads = threads;
          segments = mid;
          address = addr;
          segment_lines = listing ((a.enters.node, (c.connect.item_at, addr) ∷ []) ∷ []);
        },
        rw
            (
              read,
              walked,
              connected,
              lock-off c.sem_wait shm_key mid a.off,
              listed,
              unlock-off c.sem_post shm_key mid a.off,
              beq_of_ne addr null attached,
            )
            refl,
        refl,
        record { tasks_read = keeps; tasks_logged = refl; at = refl; alone = a; listed = refl },
      )

  start_up-attach :
      (argc : ℕ) (q : Bool) (lines : List (FileLine F)) (threads threads' : ThreadState.Library)
      (segments : SharedState.Library)
      → install_handlers c.signals threads ≡ ok threads'
      → arguments argc q ≡ 2
      → c.file ≡ some lines
      → start_up list c argc q threads segments
        ≡ attach list c lines threads' (record segments { use_semaphores = false })
  unfolding start_up use_semaphores
  start_up-attach argc q lines threads threads' segments installed args file =
      rw (installed, args, file) refl

  finish-both :
      (d : DestroyCalls) (threads threads' : ThreadState.Library) (b : Bool) (r : ℤ)
      (segments segments' : SharedState.Library) (tasks : Loaded list F) (state : list.State)
      → th_uninstall_signal_handler c.signals sighup threads ≡ ok (b, threads')
      → destroy_shm d shm_key segments ≡ ok (r, segments')
      → list.destroy tasks.state ≡ ok state
      → finish list c.signals d tasks threads segments ≡ ok (threads', segments', state)
  unfolding finish
  finish-both d threads threads' b r segments segments' tasks state unbound gone freed =
      rw (unbound, gone, freed) refl

  -- What the end of main leaves of the threads' library and the segments.
  pub record Finishes (bound : ℤ → Option Function) (s : Started list F) (node : SegmentNode)
      (last : ThreadState.Library × SharedState.Library × list.State) : Type 0 where
    pub own_key : node.key ≡ shm_key
    pub id : node.shm_id ≡ shm_id
    pub unbound : Refines last.0 (some (rebound (some bound) sighup none))
    pub destroyed :
        Destroys c.connect.node_at node ((c.connect.item_at, addr) ∷ []) s.segments last.1
    pub freed : list.Freed last.2

  -- On any list of pointers with the laws of ItemList, install_data with a file that opens, no
  -- table of callbacks or segments and no initialisation of the thread library before, and calls
  -- that succeed where main relies on them: main comes to its loop with a list that leads to the
  -- tasks of the lines, which it has logged in order, and the address of the segment, which is the
  -- only one that it has listed. There is no self-pipe yet; the initialisation that the first
  -- th_execute does makes it, and in the state that it leaves the signals reach handlers as
  -- `reached` says. With these, and whatever callbacks the threads have then, the end of main
  -- returns: SIGHUP reaches no handler any more, the segment was detached, then removed, and taken
  -- out of the table, and nothing of the list is left.
  pub main-Destroys :
      (init : InitCalls) (d : DestroyCalls) (argc : ℕ) (q : Bool) (lines : List (FileLine F))
      (threads later : ThreadState.Library) (segments : SharedState.Library)
      (bound : ℤ → Option Function)
      → arguments argc q ≡ 2
      → c.file ≡ some lines
      → list.Room list.new (pushes lines)
      → HasPlaces {F = F} (λ p. none) lines
      → threads.signal_handlers ≡ none
      → threads.pipe_made ≡ false
      → threads.init_done ≡ false
      → InitSucceeds init
      → Works c.signals sigint
      → Works c.signals sigquit
      → Works c.signals sighup
      → segments.segment_nodes ≡ none
      → c.connect.node_at ≢ null
      → addr ≢ null
      → Grants c.connect segments shm_id addr
      → Refines later (some bound)
      → ((i : ℕ) → (d.detach i).shmdt_fails ≡ false)
      → d.remove ≡ removed
      → (s : Started list F) × (start_up list c argc q threads segments ≡ ok s)
        × Begins init s.threads
        × (start : Starts
            (read_lines [] (found_lines lines))
            (record segments { use_semaphores = false })
            s)
        × (last : ThreadState.Library × SharedState.Library × list.State) × (finish list c.signals d
              s.tasks later s.segments
            ≡ ok last)
        × Finishes bound s start.alone.enters.node last
  main-Destroys init d argc q lines threads later segments bound args file room places empty no_pipe
        first inits works_int works_quit works_hup blank ne attached g bindings lets_go removal =
      let (threads', installed, handlers, keeps) =
        handlers-reached c.signals threads empty works_int works_quit works_hup in
      let (s, ran, same, start) =
        attach-Starts lines threads' (record segments { use_semaphores = false }) room places blank
          refl ne attached
          (record {
            got = g.got;
            attached = g.attached;
            readable = g.readable;
            item = g.item;
            unused = g.unused;
          }) in
      let (later', unbound, left) =
        uninstall-Refines c.signals sighup later bound bindings (omega arith, omega arith)
          (works_hup.0, works_hup.1, works_hup.2, refl) in
      let (end, gone, destroys) =
        destroy-IsAlone c.connect d shm_key shm_id addr _ s.segments start.alone refl lets_go
          removal in
      let (state, ended, freed) =
        list.destroy-Holds s.tasks.state start.tasks_read.pointers start.tasks_read.holds in
      (
        s,
        start_up-attach argc q lines threads threads' segments installed args file ∙ ran,
        rw same (
            init-Begins init threads' inits (keeps.pipe ∙ no_pipe) (keeps.init ∙ first)
              keeps.int_flag keeps.quit_flag handlers),
        start,
        (later', end, state),
        finish-both d later later' true _ s.segments end s.tasks state unbound gone ended,
        record {
          own_key = start.alone.enters.own_key;
          id = start.alone.enters.id;
          unbound = left;
          destroyed = destroys;
          freed = freed;
        },
      )
