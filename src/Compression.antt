-- ===== src/Compression.antt =====
-- The compression of memories of crates/surreal-memory/src/compression: a summarizer proposes
-- claims with quotes, and a gate decides which of them are published. What the code calls of
-- Unicode's tables, of SHA-256 and of the floating-point unit is the parameter `Platform`.
pub mod Contract
pub mod Status
pub mod Text
pub mod Wording
pub mod Extract
pub mod Lineage
pub mod Promotion
pub mod Gate
mod Examples
mod Witnesses
