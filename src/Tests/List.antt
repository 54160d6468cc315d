-- ===== src/Tests/List.antt =====
-- A list of three nodes, the values of which are the addresses 101 to 103, and a byte behind each.
use legacy_point_monitor.Common.{◌≡◌, refl, Option, none, some, [], ◌∷◌, arith}
use legacy_point_monitor.Common.Outcome.{Outcome, ok, fault}
use legacy_point_monitor.Store.Memory.{
  null, node, Nodes, Memory, update, ◌>>=◌, load, create, set_next, free, load_byte, store_byte,
}
use legacy_point_monitor.Store.List.{
  ListHandle, new_list, push_list_item, remove_list_item, iterate_list, destroy_list,
}
use legacy_point_monitor.Store.List.Chain.{IsList-IsChain, Cells, IsList}
use legacy_point_monitor.Store.List.Push.{Readable}
use legacy_point_monitor.Store.List.Remove.{Erases, remove-erase}
use legacy_point_monitor.Store.List.Life.{AreFresh, Lives, life-Lives}
use legacy_point_monitor.Store.List.Tail.{FaultsAfter, push-remove_head}

program : Unit {0}
unfolding new_list push_list_item remove_list_item iterate_list destroy_list load create set_next
    free load_byte store_byte
program = tt

abbrev empty_memory : Memory
empty_memory = record { nodes = λ p. none; bytes = λ p. some 7 }

abbrev three : Nodes
three =
    update (update (update (λ p. none) 1 (some (node 101 2))) 2 (some (node 102 3))) 3
      (some (node 103 null))

abbrev memory : Memory
memory = record { nodes = three; bytes = λ p. some 7 }

abbrev list : ListHandle
list = record { size = 3; head = 1; tail = 3 }

abbrev cells : Cells
cells = (1, 101) ∷ (2, 102) ∷ (3, 103) ∷ []

list-IsList : IsList three list cells
list-IsList = record {
  chain = (
    2,
    refl,
    omega arith,
    refl,
    refl,
    (3, refl, omega arith, refl, refl, (null, refl, omega arith, refl, refl, refl)),
  );
  tail = refl;
  size = refl;
}

abbrev out : {A : Type 0} → Outcome (A × Memory) → Option A
out (ok (a, m)) = some a
out _ = none

-- Three pushes, and a walk along the list.
pushed :
    out (
      (do
        a ← push_list_item 1 new_list 101 4
        b ← push_list_item 2 a 102 4
        c ← push_list_item 3 b 103 4
        iterate_list c)
        empty_memory)
    ≡ some (101 ∷ 102 ∷ 103 ∷ [])
unfolding program
pushed = refl

removed_head : (do r ← remove_list_item list 101; push_list_item 4 r.1 104 4) memory ≡ fault
unfolding program
removed_head = refl

readable : Readable memory 104 4
readable i lt = (7, refl)

remove-erase_example : Erases memory list 102 cells
remove-erase_example = remove-erase memory list 102 cells (IsList-IsChain list-IsList) refl

push-remove_head_example : FaultsAfter memory list 101 ((2, 102) ∷ (3, 103) ∷ [])
push-remove_head_example = push-remove_head memory list 1 101 2 102 ((3, 103) ∷ []) list-IsList

built_cells-AreFresh : AreFresh empty_memory 4 ((8, 201) ∷ (5, 202) ∷ [])
built_cells-AreFresh = (
  omega arith,
  refl,
  (λ i lt. (7, refl)),
  refl,
  (omega arith, refl, (λ i lt. (7, refl)), refl, tt),
)

life-Lives_example : Lives empty_memory ((8, 201) ∷ (5, 202) ∷ []) 4
life-Lives_example = life-Lives empty_memory ((8, 201) ∷ (5, 202) ∷ []) 4 built_cells-AreFresh
