-- ===== src/Memory.antt =====
-- The rows of memories and the writes on them of crates/surreal-memory/src/storage/surreal.rs, with
-- surreal/owned.rs and surreal/expiry.rs. What other callers do between a read and a write is a
-- function on the tables.
pub mod Rows
pub mod Update
pub mod Owned
pub mod Expiry
pub mod Add
pub mod Audit
mod Examples
