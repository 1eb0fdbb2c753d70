-- ===== src/Tasks/Step.antt =====
-- `TaskStep` of crates/surreal-memory/src/task_step.rs.
use surreal_memory_server.Common.{
  ℕ, String, Bool, true, false, Option, none, ◌==◌, if◌then◌else◌, Result, ok, err,
}

pub data TaskStepStatus : Type 0 where
  pending running completed failed skipped : TaskStepStatus

unfoldable pub as_str : TaskStepStatus → String
as_str pending = "pending"
as_str running = "running"
as_str completed = "completed"
as_str failed = "failed"
as_str skipped = "skipped"

-- The error is the text that is no status.
unfoldable pub parse_str : String → Result TaskStepStatus String
parse_str raw =
    if raw == "pending"
    then ok pending
    else if raw == "running"
    then ok running
    else if raw == "completed"
    then ok completed
    else if raw == "failed"
    then ok failed
    else if raw == "skipped"
    then ok skipped
    else err raw

unfoldable pub is_terminal_done : TaskStepStatus → Bool
is_terminal_done completed = true
is_terminal_done skipped = true
is_terminal_done _ = false

pub record TaskStep : Type 0 where
  pub id : Option String
  pub task_stream_id : Option String
  pub ordinal : ℕ
  pub name : String
  pub description : Option String
  pub status : TaskStepStatus
  pub idempotency_key : String
  pub result : Option String
  pub error : Option String
  pub started_at : Option ℕ
  pub completed_at : Option ℕ
  pub created_at : ℕ

unfoldable pub new : ℕ → String → Option String → String → ℕ → TaskStep
new ordinal name description idempotency_key now = record {
  id = none;
  task_stream_id = none;
  ordinal = ordinal;
  name = name;
  description = description;
  status = pending;
  idempotency_key = idempotency_key;
  result = none;
  error = none;
  started_at = none;
  completed_at = none;
  created_at = now;
}
