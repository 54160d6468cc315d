-- ===== src/Store/List/Remove.antt =====
-- remove_list_item takes the first node with the value out of the chain, and sets `tail` to the node
-- before it, wherever that stands.
use mathlib.Core.Path.{subst}
use native.Mathlib.Numerals.{add-one}
use legacy_point_monitor.Common.{
  ℕ, zero, suc, ◌+◌, ◌-◌, ◌<◌, ◌≡◌, ◌≢◌, refl, sym, ap, ◌∙◌, Bool, true, false, ◌||◌, some, [], ◌∷◌,
  ◌==◌, if◌then◌else◌, arith, length, beq_of_ne, Bool-cases, inl, inr,
}
use legacy_point_monitor.Common.Outcome.{ok}
use legacy_point_monitor.Store.Memory.{Ptr, null, node, Nodes, Memory, update, load-ok, set_next-ok}
use legacy_point_monitor.Store.List.{ListHandle, unlink, remove_loop, remove_list_item}
use legacy_point_monitor.Store.List.Chain.{Cells, has, Seg, SameOutside, IsChain, Seg-update}

abbrev pub contains : Ptr → Cells → Bool
contains v [] = false
contains v ((a, w) ∷ xs) = w == v || contains v xs

-- The list less its first node with the value.
abbrev pub erase : Ptr → Cells → Cells
erase v [] = []
erase v ((a, w) ∷ xs) = if w == v then xs else (a, w) ∷ erase v xs

-- The address of the node before it, `d` if it is the first.
abbrev pub before : Ptr → Ptr → Cells → Ptr
before d v [] = d
before d v ((a, w) ∷ xs) = if w == v then d else before a v xs

pub has-erase : (p v : Ptr) (xs : Cells) → has p xs ≡ false → has p (erase v xs) ≡ false
has-erase p v [] e = refl
has-erase p v ((a, w) ∷ xs) e = ground (arith, has-erase p v xs)

pub length-erase :
    (v : Ptr) (xs : Cells) → contains v xs ≡ true → length (erase v xs) + 1 ≡ length xs
length-erase v [] e = cc
length-erase v ((a, w) ∷ xs) e = ground (arith, length-erase v xs)

-- The loop behind a node `prev`, when the value is there.
abbrev pub Unlinked : Memory → ListHandle → Ptr → Ptr → Ptr → Cells → ListHandle → Nodes → Type 0
Unlinked m l v prev pv xs l' g =
    (l' ≡ record l { tail = before prev v xs; size = l.size - 1 })
    × Seg g null prev ((prev, pv) ∷ erase v xs)
    × SameOutside ((prev, pv) ∷ xs) m.nodes g

loop-found :
    (fuel : ℕ) (m : Memory) (l : ListHandle) (v prev pv at : Ptr) (xs : Cells)
    → length xs < fuel
    → prev ≢ null
    → m.nodes prev ≡ some (node pv at)
    → has prev xs ≡ false
    → Seg m.nodes null at xs
    → contains v xs ≡ true
    → (g : Nodes) × (l' : ListHandle) × (remove_loop fuel l v prev at m
        ≡ ok ((true, l'), record m { nodes = g }))
      × Unlinked m l v prev pv xs l' g
unfolding remove_loop unlink
loop-found zero m l v prev pv at xs lt ne here out s c = absurd (omega arith)
loop-found (suc fuel) m l v prev pv at [] lt ne here out s c = cc
loop-found (suc fuel) m l v prev pv at ((a, w) ∷ xs) lt ne here out (q, e, ane, there, aout, s) c =
    elim (Bool-cases (w == v)) [
      | inl hit ↦ (
        update m.nodes prev (some (node pv q)),
        record l { tail = prev; size = l.size - 1 },
        rw
            (
              e,
              beq_of_ne a null ane,
              load-ok m ane there,
              hit,
              beq_of_ne prev null ne,
              set_next-ok m ne here,
            )
            refl,
        (
          rw hit refl,
          rw hit (
            q,
            refl,
            ne,
            ground arith,
            ground arith,
            Seg-update m.nodes null q xs prev _ (ground arith) s,
          ),
          ground arith,
        ),
      )
      | inr miss ↦
          let c' : contains v xs ≡ true = rw miss at c in
          let (g, l', run, (shape, chain, same)) =
            loop-found fuel m l v a w q xs (omega arith) ane there aout s c' in
          let far = has-erase prev v xs (ground arith) in
          (
            g,
            l',
            rw (e, beq_of_ne a null ane, load-ok m ane there, miss) run,
            (
              rw miss shape,
              rw miss (a, refl, ne, ground (arith, same prev), ground arith, chain),
              λ b o. ground (arith, same b),
            ),
          )
    ]

-- The loop when the value is not in the rest of the list: the structure is as it was.
loop-absent :
    (fuel : ℕ) (m : Memory) (l : ListHandle) (v prev at : Ptr) (xs : Cells)
    → length xs < fuel
    → Seg m.nodes null at xs
    → contains v xs ≡ false
    → remove_loop fuel l v prev at m ≡ ok ((false, l), m)
unfolding remove_loop
loop-absent zero m l v prev at xs lt s c = absurd (omega arith)
loop-absent (suc fuel) m l v prev at [] lt s c = rw s refl
loop-absent (suc fuel) m l v prev at ((a, w) ∷ xs) lt (q, e, ane, there, aout, s) c =
    elim (Bool-cases (w == v)) [
      | inl hit ↦ ground arith
      | inr miss ↦
          rw (e, beq_of_ne a null ane, load-ok m ane there, miss)
            (loop-absent fuel m l v a q xs (omega arith) s (rw miss at c))
    ]

-- What a successful removal leaves: the chain less its first node with the value, the node before
-- that one as `tail` (NULL, if it was the first), and `size` less one. Nothing else is changed.
abbrev pub Removed : Memory → ListHandle → Ptr → Cells → Memory → ListHandle → Type 0
Removed m l v xs m' l' =
    Seg m'.nodes null l'.head (erase v xs)
    × (l'.tail ≡ before null v xs)
    × (l'.size ≡ length (erase v xs))
    × SameOutside xs m.nodes m'.nodes
    × (m'.bytes ≡ m.bytes)

loop-head :
    (fuel : ℕ) (m : Memory) (l : ListHandle) (v a w : Ptr) (xs : Cells)
    → length xs < fuel
    → IsChain m.nodes l ((a, w) ∷ xs)
    → contains v ((a, w) ∷ xs) ≡ true
    → (m' : Memory) × (l' : ListHandle) × (remove_loop (suc fuel) l v null l.head m
        ≡ ok ((true, l'), m'))
      × Removed m l v ((a, w) ∷ xs) m' l'
unfolding remove_loop unlink
loop-head fuel m l v a w xs lt is c =
    let (q, e, ane, there, aout, s) = is.chain in
    elim (Bool-cases (w == v)) [
      | inl hit ↦ (
        m,
        record { size = l.size - 1; head = q; tail = null },
        simp (e, beq_of_ne a null ane, load-ok m ane there, hit) refl,
        (rw hit s, rw hit refl, rw hit (omega (arith, is.size)), λ b o. refl, refl),
      )
      | inr miss ↦
          let c' : contains v xs ≡ true = rw miss at c in
          let (g, l', run, (shape, chain, same)) =
            loop-found fuel m l v a w q xs lt ane there aout s c' in
          (
            record m { nodes = g },
            l',
            simp (e, beq_of_ne a null ane, load-ok m ane there, miss) run,
            (
              subst (λ p. Seg g null p (erase v ((a, w) ∷ xs)))
                  (sym (ap (λ (z : ListHandle). z.head) shape ∙ e)) (rw miss chain),
              ap (λ (z : ListHandle). z.tail) shape ∙ rw miss refl,
              ap (λ (z : ListHandle). z.size) shape
                  ∙ rw miss (omega (arith, is.size, length-erase v xs c')),
              same,
              refl,
            ),
          )
    ]

abbrev pub Erases : Memory → ListHandle → Ptr → Cells → Type 0
Erases m l v xs =
    (m' : Memory) × (l' : ListHandle) × (remove_list_item l v m ≡ ok ((true, l'), m'))
    × Removed m l v xs m' l'

-- remove_list_item on a list with a right chain and count, whatever its tail, that holds the value
-- returns true and takes its first node out of the chain; the size is that of the remaining chain,
-- the tail is the node before the removed one (NULL if there is none), and nothing outside the list
-- changes.
pub remove-erase :
    (m : Memory) (l : ListHandle) (v : Ptr) (xs : Cells)
    → IsChain m.nodes l xs
    → contains v xs ≡ true
    → Erases m l v xs
unfolding remove_list_item
remove-erase m l v [] is c = cc
remove-erase m l v ((a, w) ∷ xs) is c =
    let (m', l', run, removed) = loop-head l.size m l v a w xs (omega (arith, is.size)) is c in
    (m', l', rw (add-one l.size) run, removed)

-- On such a list without the value it returns false and changes nothing.
pub remove-absent :
    (m : Memory) (l : ListHandle) (v : Ptr) (xs : Cells)
    → IsChain m.nodes l xs
    → contains v xs ≡ false
    → remove_list_item l v m ≡ ok ((false, l), m)
unfolding remove_list_item
remove-absent m l v xs is c =
    loop-absent (l.size + 1) m l v null l.head xs (omega (arith, is.size)) is.chain c
