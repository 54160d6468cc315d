-- ===== src/Store/List/Loops.antt =====
-- iterate_list and destroy_list: they end on every well-formed list, and reach each node once.
use legacy_point_monitor.Common.{
  ℕ, zero, suc, ◌+◌, ◌<◌, ◌≡◌, refl, none, List, [], ◌∷◌, if◌then◌else◌, arith, length, beq_of_ne,
}
use legacy_point_monitor.Common.Outcome.{ok}
use legacy_point_monitor.Store.Memory.{Ptr, null, Nodes, Memory, put_node, load-ok, free-ok}
use legacy_point_monitor.Store.List.{
  ListHandle, iterate_loop, iterate_list, destroy_loop, destroy_list,
}
use legacy_point_monitor.Store.List.Chain.{Cells, has, Seg, IsList, Seg-update}

abbrev pub values : Cells → List Ptr
values [] = []
values ((a, v) ∷ xs) = v ∷ values xs

iterate_loop-values :
    (fuel : ℕ) (m : Memory) (at : Ptr) (xs : Cells)
    → length xs < fuel
    → Seg m.nodes null at xs
    → iterate_loop fuel at m ≡ ok (values xs, m)
unfolding iterate_loop
iterate_loop-values zero m at xs lt s = absurd (omega arith)
iterate_loop-values (suc fuel) m at [] lt s = rw s refl
iterate_loop-values (suc fuel) m at ((a, v) ∷ xs) lt (q, e, ne, there, out, s) =
    rw (e, beq_of_ne a null ne, load-ok m ne there, iterate_loop-values fuel m q xs (omega arith) s)
      refl

-- iterate_list on a well-formed list calls the processor with each value once, in order, and returns.
pub iterate-values :
    (m : Memory) (l : ListHandle) (xs : Cells)
    → IsList m.nodes l xs
    → iterate_list l m ≡ ok (values xs, m)
unfolding iterate_list
iterate-values m l xs is =
    iterate_loop-values (l.size + 1) m l.head xs (omega (arith, is.size)) is.chain

-- `g` is `h` with the nodes of `xs` freed.
abbrev pub Without : Cells → Nodes → Nodes → Type 0
Without xs h g = (a : Ptr) → g a ≡ (if has a xs then none else h a)

destroy_loop-Without :
    (fuel : ℕ) (m : Memory) (at : Ptr) (xs : Cells)
    → length xs < fuel
    → Seg m.nodes null at xs
    → (g : Nodes) × (destroy_loop fuel at m ≡ ok (tt, record m { nodes = g }))
      × Without xs m.nodes g
unfolding destroy_loop
destroy_loop-Without zero m at xs lt s = absurd (omega arith)
destroy_loop-Without (suc fuel) m at [] lt s = (m.nodes, rw s refl, λ a. refl)
destroy_loop-Without (suc fuel) m at ((a, v) ∷ xs) lt (q, e, ne, there, out, s) =
    let kept = Seg-update m.nodes null q xs a none out s in
    let (g, run, gone) = destroy_loop-Without fuel (put_node a none m) q xs (omega arith) kept in
    (
      g,
      rw (e, beq_of_ne a null ne, load-ok m ne there, free-ok m ne there) run,
      λ b. ground (arith, gone b),
    )

-- destroy_list on a well-formed list returns, and frees exactly the nodes of the list.
pub destroy-Without :
    (m : Memory) (l : ListHandle) (xs : Cells)
    → IsList m.nodes l xs
    → (g : Nodes) × (destroy_list l m ≡ ok (tt, record m { nodes = g })) × Without xs m.nodes g
unfolding destroy_list
destroy-Without m l xs is =
    destroy_loop-Without (l.size + 1) m l.head xs (omega (arith, is.size)) is.chain
