-- ===== src/Ledger.antt =====
-- The durable operation ledger, src/operations.rs.
pub mod State
pub mod Types
pub mod Monad
pub mod Queries
pub mod Transition
pub mod Connection
pub mod Stream
pub mod Http
pub mod Lifecycle
pub mod Journal
pub mod Commit
pub mod Served
pub mod Sound
pub mod Advance
pub mod Safe
pub mod Guarded
pub mod Request
pub mod Submit
pub mod Env
pub mod Operator
pub mod Payload
pub mod Plan
pub mod Aggregate
pub mod Held
pub mod Changes
pub mod Settle
pub mod AddMemory
pub mod TaskOperation
pub mod Process
pub mod Drain
pub mod System
mod Examples
