-- ===== src/ObIndex.antt =====
-- server/storage/object_block_index.c: the index of the slices of an object block.
pub mod Defs
mod Tests
pub mod Search
pub mod Apply
pub mod Plan
pub mod Overlap
pub mod Bytes
pub mod Memory
pub mod Carve
pub mod Add
pub mod Get
pub mod Delete
