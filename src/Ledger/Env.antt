-- ===== src/Ledger/Env.antt =====
-- What the coordinator takes from outside the ledger: the codec of JSON payloads, the digest, the
-- text of errors, and the interfaces of the memory storage (`MemoryStorage`) and of the embedding
-- service (`EmbeddingService`), whose states are the type `S`. Their results come as JSON, since
-- the ledger passes each through `serde_json::to_value`.
use surreal_memory_server.Common.{ℕ, String, Bool, Option, List}
use surreal_memory_server.Ledger.Types.{PlanPart, Error}
use surreal_memory_server.Ledger.Monad.{Result}

-- `AddMemoryRequest` of src/contracts.rs.
pub record AddMemoryRequest : Type 0 where
  pub content : String
  pub user_id : Option String
  pub agent_id : Option String
  pub session_id : Option String
  pub categories : Option (List String)

pub record CreateTaskStreamPayload : Type 0 where
  pub name : String
  pub description : Option String
  pub agent_id : Option String
  pub user_id : Option String

pub record AddTaskStepPayload : Type 0 where
  pub stream_name : String
  pub ordinal : ℕ
  pub name : String
  pub description : Option String
  pub idempotency_key : String
  pub agent_id : Option String
  pub user_id : Option String

pub record CompleteStepPayload : Type 0 where
  pub idempotency_key : String
  pub result : Option String

pub record RekeyAgentIdPayload : Type 0 where
  pub to_agent_id : String
  pub user_id : Option String
  pub dry_run : Bool

-- `ExecutorSnapshot` of crates/surreal-memory/src/embeddings/mod.rs.
pub record Snapshot : Type 0 where
  pub generation : ℕ
  pub progress_seq : ℕ
  pub exit_count : ℕ
  pub last_exit : Option String
  pub error : Option String

pub record Env (V F S : Type 0) : Type 0 where
  -- `record_key`, and `{error:#}`.
  pub record_key : String → String
  pub render : Error → String
  -- `serde_json::from_value`.
  pub add_memory_of : V → Option AddMemoryRequest
  pub create_task_stream_of : V → Option CreateTaskStreamPayload
  pub add_task_step_of : V → Option AddTaskStepPayload
  pub complete_step_of : V → Option CompleteStepPayload
  pub rekey_agent_id_of : V → Option RekeyAgentIdPayload
  -- The memory storage.
  pub has_memory : String → S → Result Bool × S
  pub store_indexed_memory : String → AddMemoryRequest → List F → Option ℕ → S → Result V × S
  pub get_task_stream : String → Option String → Option String → S → Result (Option V) × S
  pub create_task_stream : CreateTaskStreamPayload → S → Result V × S
  pub add_task_step : AddTaskStepPayload → S → Result V × S
  pub complete_step : CompleteStepPayload → S → Result V × S
  pub rekey_unattributed_agent_id : RekeyAgentIdPayload → S → Result V × S
  -- The embedding service.
  pub prepare_operation : String → Snapshot → S → Result (Unit {0}) × S
  pub plan_for_operation : String → String → S → Result (List PlanPart) × S
  pub embed_for_operation : String → ℕ → String → S → Result (List F) × S
  pub executor_snapshot_for_operation : String → S → Option Snapshot
