-- ===== src/Install/Tasks/Loading.antt =====
-- With a list that keeps its laws, the tasks that main reads are those that the worker walks.
use legacy_point_monitor.Common.{
  ◌≡◌, ◌≢◌, refl, sym, ap, ◌∙◌, inl, inr, false, Option, none, some, List, [], ◌∷◌, ◌++◌, ◌==◌,
  beq_of_ne, eq_of_beq, beq_refl, Bool-cases, if◌then◌else◌,
}
use legacy_point_monitor.Common.Outcome.{ok}
use legacy_point_monitor.Store.Memory.{Ptr, null, update}
use legacy_point_monitor.Points.{PointTask, bad_index}
use legacy_point_monitor.Install.{Items, create_entry, read_lines}
use legacy_point_monitor.Install.Tasks.{
  ItemList, FileLine, task_of, Loaded, enter_task, create_entry_at, read_lines_at, read_tasks,
  tasks_walked,
}

module _ {F : Type 0} where
  -- The pushes that the lines lead to: one for each with an index in range.
  abbrev pub push_of : Ptr → Ptr → Option (Items F) → List (Ptr × Ptr) → List (Ptr × Ptr)
  push_of node_at task_at none rest = rest
  push_of node_at task_at (some (index, x, y, delay)) rest =
      if bad_index index then rest else (node_at, task_at) ∷ rest

  abbrev pub pushes : List (FileLine F) → List (Ptr × Ptr)
  pushes [] = []
  pushes (line ∷ lines) = push_of line.node_at line.task_at line.found (pushes lines)

  abbrev pub found_lines : List (FileLine F) → List (Option (Items F))
  found_lines [] = []
  found_lines (line ∷ lines) = line.found ∷ found_lines lines

  abbrev pub AllApart : Ptr → List (FileLine F) → Type 0
  AllApart p [] = Unit
  AllApart p (line ∷ lines) = ((line.task_at == p) ≡ false) × AllApart p lines

  -- malloc returns a new address for each task.
  abbrev pub HasPlaces : (Ptr → Option (PointTask F)) → List (FileLine F) → Type 0
  HasPlaces objects [] = Unit
  HasPlaces objects (line ∷ lines) =
      (line.task_at ≢ null)
      × (objects line.task_at ≡ none)
      × AllApart line.task_at lines
      × HasPlaces objects lines

  HasPlaces-kept :
      (objects now : Ptr → Option (PointTask F)) (p : Ptr) (lines : List (FileLine F))
      → ((q : Ptr) → (q == p) ≡ false → now q ≡ objects q)
      → AllApart p lines
      → HasPlaces objects lines
      → HasPlaces now lines
  HasPlaces-kept objects now p [] same apart places = tt
  HasPlaces-kept objects now p (line ∷ lines) same (first, apart) (ne, unused, own, places) = (
    ne,
    same line.task_at first ∙ unused,
    own,
    HasPlaces-kept objects now p lines same apart places,
  )

  -- The addresses lead to the tasks.
  abbrev pub Leads : (Ptr → Option (PointTask F)) → List Ptr → List (PointTask F) → Type 0
  Leads objects [] [] = Unit
  Leads objects [] (t ∷ ts) = ⊥
  Leads objects (v ∷ vs) [] = ⊥
  Leads objects (v ∷ vs) (t ∷ ts) = (objects v ≡ some t) × Leads objects vs ts

  -- A new task changes no other.
  Leads-kept :
      (objects : Ptr → Option (PointTask F)) (p : Ptr) (new : PointTask F) (vs : List Ptr)
      (ts : List (PointTask F))
      → objects p ≡ none
      → Leads objects vs ts
      → Leads (update objects p (some new)) vs ts
  Leads-kept objects p new [] [] unused leads = leads
  Leads-kept objects p new [] (t ∷ ts) unused leads = leads
  Leads-kept objects p new (v ∷ vs) [] unused leads = leads
  Leads-kept objects p new (v ∷ vs) (t ∷ ts) unused (there, leads) = (
    elim (Bool-cases (v == p)) [
      | inl same ↦ absurd (
          let bad : none ≡ some t = sym unused ∙ ap objects (sym (eq_of_beq v p same)) ∙ there in
          cc)
      | inr other ↦ rw other there
    ],
    Leads-kept objects p new vs ts unused leads,
  )

  Leads-append :
      (objects : Ptr → Option (PointTask F)) (v : Ptr) (t : PointTask F) (vs : List Ptr)
      (ts : List (PointTask F))
      → objects v ≡ some t
      → Leads objects vs ts
      → Leads objects (vs ++ v ∷ []) (ts ++ t ∷ [])
  Leads-append objects v t [] [] there leads = (there, tt)
  Leads-append objects v t [] (u ∷ ts) there leads = absurd leads
  Leads-append objects v t (w ∷ vs) [] there leads = absurd leads
  Leads-append objects v t (w ∷ vs) (u ∷ ts) there (first, leads) =
      (first, Leads-append objects v t vs ts there leads)

  Leads-read :
      (objects : Ptr → Option (PointTask F)) (vs : List Ptr) (ts : List (PointTask F))
      → Leads objects vs ts
      → read_tasks objects vs ≡ ok ts
  unfolding read_tasks
  Leads-read objects [] [] leads = refl
  Leads-read objects [] (t ∷ ts) leads = absurd leads
  Leads-read objects (v ∷ vs) [] leads = absurd leads
  Leads-read objects (v ∷ vs) (t ∷ ts) (there, leads) =
      rw (there, Leads-read objects vs ts leads) refl

  module _ (list : ItemList) where
    -- The list leads to the tasks, with room for more.
    pub record Keeps (s : Loaded list F) (ts : List (PointTask F)) (more : List (Ptr × Ptr))
        : Type 0 where
      pub pointers : List Ptr
      pub holds : list.Holds s.state pointers
      pub leads : Leads s.objects pointers ts
      pub room : list.Room s.state more

    -- One line: the list goes on with its task, and no address but that of the task is written.
    abbrev Enters : FileLine F → List (PointTask F) → List (FileLine F) → Loaded list F → Type 0
    Enters line ts lines s =
        (s' : Loaded list F) × (create_entry_at list line s ≡ ok s')
        × Keeps s' (create_entry ts line.found) (pushes lines)
        × ((q : Ptr) → (q == line.task_at) ≡ false → s'.objects q ≡ s.objects q)

    line-Enters :
        (p fresh : Ptr) (found : Option (Items F)) (ts : List (PointTask F))
        (lines : List (FileLine F)) (s : Loaded list F)
        → Keeps s ts (push_of fresh p found (pushes lines))
        → p ≢ null
        → s.objects p ≡ none
        → Enters (record { task_at = p; node_at = fresh; found = found }) ts lines s
    unfolding create_entry_at enter_task create_entry
    line-Enters p fresh none ts lines s k ne unused = (
      s,
      refl,
      record { pointers = k.pointers; holds = k.holds; leads = k.leads; room = k.room },
      λ q apart. refl,
    )
    line-Enters p fresh (some (index, x, y, delay)) ts lines s k ne unused =
        let t = task_of index x y delay in
        let kept = Leads-kept s.objects p t k.pointers ts unused k.leads in
        elim (Bool-cases (bad_index index)) [
          | inl bad ↦ (
            record s { objects = update s.objects p (some t) },
            rw (beq_of_ne p null ne, bad) refl,
            record {
              pointers = k.pointers;
              holds = k.holds;
              leads = rw bad kept;
              room = rw bad at k.room;
            },
            λ q apart. rw apart refl,
          )
          | inr good ↦
              let (state, run, holds, room) =
                list.push-Holds s.state k.pointers fresh p (pushes lines) k.holds
                  (rw good at k.room) in
              (
                record { state = state; objects = update s.objects p (some t) },
                rw (beq_of_ne p null ne, good, run) refl,
                record {
                  pointers = k.pointers ++ p ∷ [];
                  holds = holds;
                  leads = rw good (
                      Leads-append (update s.objects p (some t)) p t k.pointers ts
                        (rw (beq_refl p) refl) kept);
                  room = room;
                },
                λ q apart. rw apart refl,
              )
        ]

    pub lines-Keeps :
        (lines : List (FileLine F)) (ts : List (PointTask F)) (s : Loaded list F)
        → Keeps s ts (pushes lines)
        → HasPlaces s.objects lines
        → (s' : Loaded list F) × (read_lines_at list lines s ≡ ok s')
          × Keeps s' (read_lines ts (found_lines lines)) []
    unfolding read_lines_at read_lines
    lines-Keeps [] ts s k places = (s, refl, k)
    lines-Keeps (line ∷ lines) ts s k (ne, unused, apart, places) =
        let (mid, run, kept, same) =
          line-Enters line.task_at line.node_at line.found ts lines s k ne unused in
        let (s', ran, last) =
          lines-Keeps lines (create_entry ts line.found) mid kept
            (HasPlaces-kept s.objects mid.objects line.task_at lines same apart places) in
        (s', rw run ran, last)

    pub Keeps-walked :
        (s : Loaded list F) (ts : List (PointTask F)) (more : List (Ptr × Ptr))
        → Keeps s ts more
        → tasks_walked list s ≡ ok ts
    unfolding tasks_walked
    Keeps-walked s ts more k =
        rw (list.items-Holds s.state k.pointers k.holds)
          (Leads-read s.objects k.pointers ts k.leads)
