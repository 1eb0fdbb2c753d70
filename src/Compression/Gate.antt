-- ===== src/Compression/Gate.antt =====
-- The quality gate of crates/surreal-memory/src/compression/gate.rs.
pub mod Validate
pub mod Merge
pub mod Budget
pub mod Run
