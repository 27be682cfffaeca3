-- ===== src/Pool.antt =====
-- http_dmmr_cache/dmmr_heap_pool.c: a pool of fixed-size slots with a free list inside the free
-- slots.
pub mod Heap
pub mod Chain
pub mod Payload
mod Tests
