-- ===== src/Db.antt =====
-- http_dmmr_cache/dmmr_db.c and dmmr_db.h, with the stored record of dmmr_protocol.h. Berkeley DB is
-- a parameter: its states, its get and put, and what a cursor fetches. Every operation runs under
-- db_mutex, so a call is one function from the handle to a result and the new handle; a handle is
-- `none` when `dbp` is NULL. `alloc n` says whether the calloc of n bytes in this call succeeds.
pub mod Record
pub mod Ops
pub mod Cursor
pub mod Codec
pub mod Lww
pub mod Views
pub mod Refine
pub mod Sound
pub mod Expire
pub mod Snapshot
pub mod Walk
pub mod Toy
pub mod Converge
pub mod Tests
