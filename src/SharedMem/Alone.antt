-- ===== src/SharedMem/Alone.antt =====
-- A process that connects to one segment alone, as both programs do: the segment comes first in the table.
use mathlib.Core.Path.{subst}
use legacy_point_monitor.Common.{
  ℕ, zero, suc, ◌<◌, ◌≡◌, refl, sym, ap, ◌∙◌, inl, inr, Bool, true, false, Option, none, some, List,
  [], ◌∷◌, get_or, arith, Bool-cases, eq_of_some, ◌≢◌, beq_refl,
}
use legacy_point_monitor.Common.Int.{ℤ, ◌==ℤ◌, eq_of_beqℤ}
use legacy_point_monitor.Common.Outcome.{ok, eq_of_ok}
use legacy_point_monitor.Store.HashTable.{HashNode, slot, new_hash, get_hash_item, iterate_hash}
use legacy_point_monitor.Store.HashTable.Table.{get-new_hash, new_hash-IsTable, vacancies-replicate}
use legacy_point_monitor.Store.HashTable.Slots.{get-slot, slot-get, one-slot, visit-sole}
use legacy_point_monitor.Store.Memory.{Ptr, null}
use legacy_point_monitor.Store.List.Chain.{Cells}
use legacy_point_monitor.Store.List.Remove.{contains}
use legacy_point_monitor.SharedMem.State.{
  Library, shm_lock, shm_unlock, shm_detach, shm_ok, shm_error,
}
use legacy_point_monitor.SharedMem.Connect.{ConnectCalls, nodes_or_new, connect_shm}
use legacy_point_monitor.SharedMem.Attachments.{
  Grants, HasSegment-HasChain, Reaches, Tracks-Reaches,
}
use legacy_point_monitor.SharedMem.Show.{show_segments}
use legacy_point_monitor.SharedMem.Show.Listing.{listing, show-listing}
use legacy_point_monitor.SharedMem.Entering.{Enters, connect-first}
use legacy_point_monitor.SharedMem.Detach.{
  DetachCalls, detach_shm, DestroyCalls, destroy_shm, removed,
}
use legacy_point_monitor.SharedMem.Destroying.{Destroys, destroy-Destroys}
use legacy_point_monitor.SharedMem.Detaching.{detach-Detaches}
use legacy_point_monitor.SharedMem.Removals.{has_removed, connect-Spares}
use legacy_point_monitor.SharedMem.Removals.Detached.{detach-Spares}
use legacy_point_monitor.SharedMem.Front.{IsFront, IsFront-Owned, has_detached, detached-append}

all-IsFront :
    (lib : Library) (p : Ptr) (xs : Cells) (slots : List (Option (HashNode Ptr)))
    → ((i : ℕ) (n : HashNode Ptr) → get_or slots i none ≡ some n → n.value ≡ p)
    → (i : ℕ) (n : HashNode Ptr) → get_or slots i none ≡ some n
    → IsFront lib p xs slots
all-IsFront lib p xs [] all i n e = cc
all-IsFront lib p xs (some item ∷ slots) all i n e = inl (all 0 item refl)
all-IsFront lib p xs (none ∷ slots) all zero n e = cc
all-IsFront lib p xs (none ∷ slots) all (suc i) n e =
    all-IsFront lib p xs slots (λ j m there. all (suc j) m there) i n e

module _ (c : ConnectCalls) (key shm_id : ℤ) (addr : Ptr) (n : ℕ) (lib' : Library)
    (e : Enters c key shm_id addr (new_hash (suc n)) lib') where
  -- The one node of the table.
  entry : HashNode Ptr
  entry = record { key = key; size = e.entered.found.0; value = c.node_at }

  sole : (i : ℕ) (m : HashNode Ptr) → slot e.table i ≡ some m → m ≡ entry
  unfolding entry
  sole i m at = elim (Bool-cases (key ==ℤ m.key)) [
    | inl same ↦
        let found = ap (get_hash_item e.table) (eq_of_beqℤ key m.key same) in
        eq_of_some _ _
          (eq_of_ok _ _ (sym (get-slot e.well_formed i m at) ∙ sym found ∙ e.entered.found.1))
    | inr other ↦
        let none_there = e.others m.key other ∙ get-new_hash n m.key in
        absurd
          (let bad : ok (some m) ≡ ok none = sym (get-slot e.well_formed i m at) ∙ none_there in cc)
  ]

  pub Enters-IsFront : (lib : Library) (xs : Cells) → IsFront lib c.node_at xs e.table.hash_array
  unfolding entry
  Enters-IsFront lib xs =
      let (i, there) = slot-get e.well_formed key _ e.entered.found.1 in
      all-IsFront lib c.node_at xs e.table.hash_array
        (λ j m at. ap (λ (x : HashNode Ptr). x.value) (sole j m at)) i _ there

  -- show_segments lists the new segment and nothing else.
  pub show-Enters : show_segments lib' ≡ ok (listing ((e.node, (c.item_at, addr) ∷ []) ∷ []))
  unfolding entry iterate_hash
  show-Enters =
      let (i, there) = slot-get e.well_formed key _ e.entered.found.1 in
      let only : iterate_hash e.table ≡ entry ∷ [] =
        visit-sole e.table.hash_array i entry there
          λ j m at. one-slot e.well_formed j i entry (at ∙ ap some (sole j m at)) there in
      show-listing lib' e.table ((e.node, (c.item_at, addr) ∷ []) ∷ []) e.entered.table
        e.well_formed.nonempty (rw only (HasSegment-HasChain e.entered.segment, tt))

-- With semaphores off, the locks are taken without a call.
pub lock-off :
    (b : Bool) (key : ℤ) (lib : Library)
    → lib.use_semaphores ≡ false
    → shm_lock b key lib ≡ ok (true, lib)
unfolding shm_lock
lock-off b key lib off = rw off refl

pub unlock-off :
    (b : Bool) (key : ℤ) (lib : Library)
    → lib.use_semaphores ≡ false
    → shm_unlock b key lib ≡ ok (true, lib)
unfolding shm_unlock
unlock-off b key lib off = rw off refl

-- The first segment of a process that uses no semaphores.
pub record IsAlone (c : ConnectCalls) (key shm_id : ℤ) (addr : Ptr) (lib lib' : Library)
    : Type 0 where
  pub enters : Enters c key shm_id addr (new_hash (suc 4095)) lib'
  pub off : lib'.use_semaphores ≡ false
  pub spared : has_removed lib'.calls ≡ has_removed lib.calls

first-table :
    (n : ℕ) (c : ConnectCalls) (key size shm_id : ℤ) (lib : Library) (addr : Ptr)
    → 0 < n
    → nodes_or_new lib.segment_nodes ≡ new_hash (suc n)
    → c.node_at ≢ null
    → (lib.use_semaphores ≡ true → (c.semget ==ℤ shm_error) ≡ false)
    → Grants c lib shm_id addr
    → (lib' : Library) × (connect_shm c key size lib ≡ ok (addr, lib'))
      × Enters c key shm_id addr (new_hash (suc n)) lib'
unfolding new_hash
first-table n c key size shm_id lib addr some_room blank ne sem g =
    connect-first c key size shm_id lib (new_hash (suc n)) addr blank
      (new_hash-IsTable (suc n) (omega arith))
      (omega (arith, some_room, vacancies-replicate Ptr (suc n))) (get-new_hash n key) ne sem g

-- With semaphores off and no table yet, connect_shm enters the segment, whatever semget answers.
pub connect-IsAlone :
    (c : ConnectCalls) (key size shm_id : ℤ) (lib : Library) (addr : Ptr)
    → lib.segment_nodes ≡ none
    → lib.use_semaphores ≡ false
    → c.node_at ≢ null
    → Grants c lib shm_id addr
    → (lib' : Library) × (connect_shm c key size lib ≡ ok (addr, lib'))
      × IsAlone c key shm_id addr lib lib'
connect-IsAlone c key size shm_id lib addr blank off ne g =
    let (lib', run, e) =
      first-table 4095 c key size shm_id lib addr (omega arith) (rw blank refl) ne
        (λ on. absurd (let bad : true ≡ false = sym on ∙ off in cc)) g in
    let kept = rw run at (connect-Spares c key size lib) in
    (lib', run, record { enters = e; off = kept.1 ∙ off; spared = kept.0 })

-- detach_shm of its address succeeds where shmdt does, and calls it for the address.
pub detach-IsAlone :
    (c : ConnectCalls) (d : DetachCalls) (key shm_id : ℤ) (addr : Ptr) (lib lib' : Library)
    → IsAlone c key shm_id addr lib lib'
    → (key ==ℤ shm_error) ≡ false
    → d.shmdt_fails ≡ false
    → (last : Library) × (detach_shm d addr lib' ≡ ok (shm_ok, last))
      × (has_detached addr last.calls ≡ true)
      × (has_removed last.calls ≡ has_removed lib.calls)
detach-IsAlone c d key shm_id addr lib lib' a valid works =
    let e = a.enters in
    let cells = (c.item_at, addr) ∷ [] in
    let here : contains addr cells ≡ true = rw (beq_refl addr) refl in
    let front = Enters-IsFront c key shm_id addr 4095 lib' e lib' cells in
    let owned =
      IsFront-Owned lib' c.node_at e.node cells addr e.table.hash_array
        (HasSegment-HasChain e.entered.segment) here front in
    let (last, run, x) =
      detach-Detaches d key lib' e.table addr c.node_at e.node cells (Tracks-Reaches e.entered)
        (rw e.own_key at owned) here valid works in
    let kept = rw run at (detach-Spares d addr lib') in
    (
      last,
      run,
      ap (has_detached addr) x.calls.1
          ∙ detached-append addr x.calls.0 (shm_detach addr ∷ lib'.calls) (rw (beq_refl addr) refl),
      kept.0 ∙ a.spared,
    )

-- destroy_shm takes it away again.
pub destroy-IsAlone :
    (c : ConnectCalls) (d : DestroyCalls) (key shm_id : ℤ) (addr : Ptr) (lib lib' : Library)
    (a : IsAlone c key shm_id addr lib lib')
    → (key ==ℤ shm_error) ≡ false
    → ((i : ℕ) → (d.detach i).shmdt_fails ≡ false)
    → d.remove ≡ removed
    → (last : Library) × (destroy_shm d key lib' ≡ ok (shm_ok, last))
      × Destroys c.node_at a.enters.node ((c.item_at, addr) ∷ []) lib' last
destroy-IsAlone c d key shm_id addr lib lib' a valid works removal =
    let e = a.enters in
    let cells = (c.item_at, addr) ∷ [] in
    let front = Enters-IsFront c key shm_id addr 4095 lib' e lib' cells in
    let reaches =
      subst (λ k. Reaches lib' e.table k c.node_at e.node cells) (sym e.own_key)
        (Tracks-Reaches e.entered) in
    let (last, run, gone) =
      destroy-Destroys d lib' e.table c.node_at e.node cells e.well_formed reaches front
        (rw e.own_key valid) works removal in
    (last, ap (λ k. destroy_shm d k lib') (sym e.own_key) ∙ run, gone)
