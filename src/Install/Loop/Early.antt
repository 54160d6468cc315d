-- ===== src/Install/Loop/Early.antt =====
-- main waits on its condition once, without a loop: a wake-up that nobody signalled ends the program.
use legacy_point_monitor.Common.{refl, true, List, []}
use legacy_point_monitor.Points.{Float, Point, PointTask}
use legacy_point_monitor.Install.Loop.{
  Main, Worker, State, start, Reach, here, next, woke, wakes, executes, locks, waits, relocks,
  unlocks, kills, joins, leaves, destroys, worker_dies,
}

module _ {F : Type 0} (f : Float F) (tasks : List (PointTask F)) where
  -- The segment is removed, and the array is as it was.
  abbrev pub early : List (Point F) → State F
  early points = record (start f tasks [] points) {
    main = Main.destroyed;
    worker = Worker.absent;
    cancel = true;
  }

  -- Without a signal from outside and whatever the tasks, where pthread_cond_wait may return without
  -- a signal of the condition, the program can come to its end with the segment removed and none of
  -- the tasks carried out.
  pub Reach-early :
      (points : List (Point F)) → Reach f tasks (start f tasks [] points) (early points)
  Reach-early points =
      let began : Reach f tasks (start f tasks [] points) _ = next here (executes refl) in
      let waited = next (next began (locks refl refl)) (waits refl) in
      let killed =
        next (next (next (woke waited (wakes refl)) (relocks refl refl)) (unlocks refl))
          (kills refl) in
      next
        (next (next (next killed (worker_dies tasks refl refl)) (joins refl refl))
          (leaves refl refl))
        (destroys refl)
