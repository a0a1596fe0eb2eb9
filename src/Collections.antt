-- ===== src/Collections.antt =====
-- The containers of src/shared/collections/src, over a store of nodes.
pub mod Store
pub mod Cells
pub mod Singly
pub mod Doubly
pub mod Ranges
pub mod Lru
pub mod HashMap
