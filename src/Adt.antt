-- ===== src/Adt.antt =====
-- include/caffeine/ADT: the containers.
pub mod FreeList
pub mod SlotMap
pub mod UnionFind
pub mod SparseVector
pub mod SetTrie
pub mod SharedArray
