-- ===== src/Store/List.antt =====
-- src/lib/store/list.c and include/list.h: a singly linked list with a pointer to its last node. The
-- `List` structure is passed and returned; its nodes are in memory. A loop along the list is given
-- `size + 1` rounds.
pub mod Chain
pub mod Push
pub mod Remove
pub mod Loops
pub mod Tail
pub mod Life
use legacy_point_monitor.Common.{
  ℕ, zero, suc, ◌+◌, ◌-◌, Bool, true, false, List, [], ◌∷◌, ◌==◌, if◌then◌else◌,
}
use legacy_point_monitor.Common.Outcome.{out_of_fuel}
use legacy_point_monitor.Store.Memory.{
  Ptr, null, node, Cmd, pure, ◌>>=◌, ◌>>◌, load, create, set_next, free, load_byte, store_byte,
}

-- `size` is a number: the program does not build lists of 2^31 nodes, and an item is taken off only
-- where there is one.
pub record ListHandle : Type 0 where
  pub size : ℕ
  pub head : Ptr
  pub tail : Ptr

unfoldable pub new_list : ListHandle
new_list = record { size = 0; head = null; tail = null }

-- `for (idx = 0; idx < value_size; idx++) *(char *)(dst + idx) = *(char *)(src + idx);`
unfoldable pub copy_bytes : ℕ → ℕ → Ptr → Ptr → Cmd (Unit {0})
copy_bytes zero idx dst src = pure tt
copy_bytes (suc n) idx dst src = do
  b ← load_byte (src + idx)
  store_byte (dst + idx) b
  copy_bytes n (idx + 1) dst src

-- `fresh` is what `malloc` returns. The new node's value is the pointer, so the bytes are copied
-- onto themselves.
unfoldable pub push_list_item : Ptr → ListHandle → Ptr → ℕ → Cmd ListHandle
unfolding copy_bytes
push_list_item fresh l value value_size = do
  create fresh (node value null)
  copy_bytes value_size 0 value value
  linked ←
      if l.head == null then pure (record l { head = fresh }) else do set_next l.tail fresh; pure l
  pure (record linked { tail = fresh; size = l.size + 1 })

-- The node behind `prev` is taken out of the chain, and the structure updated.
unlink : ListHandle → Ptr → Ptr → Cmd ListHandle
unlink l prev next = do
  relinked ← if prev == null then pure (record l { head = next }) else do set_next prev next; pure l
  pure (record relinked { tail = if prev == null then null else prev; size = l.size - 1 })

remove_loop : ℕ → ListHandle → Ptr → (prev at : Ptr) → Cmd (Bool × ListHandle)
remove_loop zero l value prev at = λ _. out_of_fuel
remove_loop (suc fuel) l value prev at = if at == null then pure (false, l) else do
  n ← load at
  if n.value == value
      then (do l' ← unlink l prev n.next; pure (true, l'))
      else remove_loop fuel l value at n.next

unfoldable pub remove_list_item : ListHandle → Ptr → Cmd (Bool × ListHandle)
unfolding remove_loop unlink
remove_list_item l value = remove_loop (l.size + 1) l value null l.head

-- The values that `processor` is called with, in order.
iterate_loop : ℕ → Ptr → Cmd (List Ptr)
iterate_loop zero at = λ _. out_of_fuel
iterate_loop (suc fuel) at =
    if at == null
    then pure []
    else do n ← load at; rest ← iterate_loop fuel n.next; pure (n.value ∷ rest)

unfoldable pub iterate_list : ListHandle → Cmd (List Ptr)
unfolding iterate_loop
iterate_list l = iterate_loop (l.size + 1) l.head

destroy_loop : ℕ → Ptr → Cmd (Unit {0})
destroy_loop zero at = λ _. out_of_fuel
destroy_loop (suc fuel) at =
    if at == null then pure tt else do n ← load at; free at; destroy_loop fuel n.next

-- The nodes; the structure itself is freed too, and not used again.
unfoldable pub destroy_list : ListHandle → Cmd (Unit {0})
unfolding destroy_loop
destroy_list l = destroy_loop (l.size + 1) l.head
