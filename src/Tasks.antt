-- ===== src/Tasks.antt =====
-- Task streams and their steps: crates/surreal-memory/src/task_stream.rs, task_step.rs and
-- model_profiles.rs, and the operations on them of storage/surreal.rs. A table is the list of its
-- rows, in the order in which the database returns them. Record ids are texts, moments are numbers.
pub mod Stream
pub mod Step
pub mod Steps
pub mod Context
mod Examples
