-- ===== src/SharedMem/Front.antt =====
-- Segments that come first in the table with their addresses, and what stays when one address is off.
use legacy_point_monitor.Common.{
  ◌≡◌, ◌≢◌, refl, sym, ◌∙◌, ◌⊎◌, inl, inr, Bool, true, false, ◌||◌, Option, none, some, List, [],
  ◌∷◌, ◌++◌, ◌==◌, arith, beq_refl,
}
use legacy_point_monitor.Common.Int.{ℤ}
use legacy_point_monitor.Store.HashTable.{HashNode, Hash}
use legacy_point_monitor.Store.Memory.{Ptr, null, Nodes}
use legacy_point_monitor.Store.List.Chain.{Cells, has, Seg, Seg-frame}
use legacy_point_monitor.Store.List.Remove.{contains}
use legacy_point_monitor.SharedMem.State.{
  SegmentNode, SystemCall, sem_wait, sem_post, sem_remove, shm_attach, shm_detach, shm_remove,
  Library,
}
use legacy_point_monitor.SharedMem.Attachments.{HasChain, Reaches}
use legacy_point_monitor.SharedMem.Detaching.{Owned, Detaches}

-- The lists share neither a node nor an address.
abbrev pub Disjoint : Cells → Cells → Type 0
Disjoint xs ys =
    ((a : Ptr) → has a ys ≡ true → has a xs ≡ false)
    × ((v : Ptr) → contains v xs ≡ true → contains v ys ≡ false)

-- The segment `p`, with the attachments `xs`, comes before every other one in the slots that has one of
-- its addresses, and the lists of those before it share no node with its own.
abbrev pub IsFront : Library → Ptr → Cells → List (Option (HashNode Ptr)) → Type 0
IsFront lib p xs [] = ⊥
IsFront lib p xs (none ∷ slots) = IsFront lib p xs slots
IsFront lib p xs (some item ∷ slots) =
    (item.value ≡ p)
    ⊎ ((item.value ≢ p)
        × (node : SegmentNode) × (ys : Cells) × HasChain lib item.value node ys
        × Disjoint xs ys
        × IsFront lib p xs slots)

pub IsFront-Owned :
    (lib : Library) (p : Ptr) (node : SegmentNode) (xs : Cells) (v : Ptr)
    (slots : List (Option (HashNode Ptr)))
    → HasChain lib p node xs
    → contains v xs ≡ true
    → IsFront lib p xs slots
    → Owned lib v node.key slots
IsFront-Owned lib p node xs v [] s here front = front
IsFront-Owned lib p node xs v (none ∷ slots) s here front =
    IsFront-Owned lib p node xs v slots s here front
IsFront-Owned lib p node xs v (some item ∷ slots) s here (inl e) =
    (node, xs, rw e s, inl (here, refl))
IsFront-Owned lib p node xs v (some item ∷ slots) s here (inr (ne, other, ys, t, apart, front)) =
    (other, ys, t, inr (apart.1 v here, IsFront-Owned lib p node xs v slots s here front))

-- A call of shmdt for the address was made.
abbrev pub has_detached : Ptr → List SystemCall → Bool
has_detached v [] = false
has_detached v (shm_detach w ∷ calls) = w == v || has_detached v calls
has_detached v (_ ∷ calls) = has_detached v calls

module _ {v a p : Ptr} {node : SegmentNode} {xs : Cells} {lib lib' : Library}
    (d : Detaches v p node ((a, v) ∷ xs) lib lib') where
  pub IsFront-kept :
      (slots : List (Option (HashNode Ptr)))
      → IsFront lib p ((a, v) ∷ xs) slots
      → IsFront lib' p xs slots
  IsFront-kept [] front = front
  IsFront-kept (none ∷ slots) front = IsFront-kept slots front
  IsFront-kept (some item ∷ slots) (inl e) = inl e
  IsFront-kept (some item ∷ slots) (inr (ne, other, ys, s, apart, front)) =
      let same : (b : Ptr) → has b ys ≡ true → lib'.memory.nodes b ≡ lib.memory.nodes b =
        λ b i. d.same b (apart.0 b i) in
      inr (
        ne,
        other,
        ys,
        record {
          nonnull = s.nonnull;
          object = d.others item.value ne ∙ s.object;
          attachments = record {
            chain = Seg-frame _ _ null other.attachments.head ys same s.attachments.chain;
            size = s.attachments.size;
          };
        },
        (λ b i. ground (arith, apart.0 b i), λ w i. apart.1 w (ground arith)),
        IsFront-kept slots front,
      )

  pub next-Reaches :
      {h : Hash Ptr} {key : ℤ}
      → Reaches lib h key p node ((a, v) ∷ xs)
      → Reaches lib' h key p (record node { attachments = d.list }) xs
  next-Reaches r = record {
    table = d.table ∙ r.table;
    found = r.found;
    segment = record {
      nonnull = r.segment.nonnull;
      object = d.object;
      attachments = record { chain = rw (beq_refl v) at d.chain; size = rw (beq_refl v) at d.size };
    };
  }

pub detached-append :
    (v : Ptr) (more calls : List SystemCall)
    → has_detached v calls ≡ true
    → has_detached v (more ++ calls) ≡ true
detached-append v [] calls e = e
detached-append v (shm_detach w ∷ more) calls e = ground (arith, detached-append v more calls e)
detached-append v (sem_wait x ∷ more) calls e = detached-append v more calls e
detached-append v (sem_post x ∷ more) calls e = detached-append v more calls e
detached-append v (sem_remove x ∷ more) calls e = detached-append v more calls e
detached-append v (shm_remove x ∷ more) calls e = detached-append v more calls e
detached-append v (shm_attach x ∷ more) calls e = detached-append v more calls e

pub Seg-start : (h g : Nodes) (p q : Ptr) (xs : Cells) → Seg h null p xs → Seg g null q xs → p ≡ q
Seg-start h g p q [] s t = s ∙ sym t
Seg-start h g p q ((a, v) ∷ xs) s t = s.1 ∙ sym t.1
