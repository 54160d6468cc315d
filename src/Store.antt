-- ===== src/Store.antt =====
-- The store library, src/lib/store: a hash table and a linked list.
pub mod HashTable
pub mod Memory
pub mod List
