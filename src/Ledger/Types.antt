-- ===== src/Ledger/Types.antt =====
-- The rows of the ledger's tables and the state that its operations share (src/operations.rs).
-- `V` is `serde_json::Value`, `F` is `f32`, and `S` is the state of the memory storage. The
-- columns `id`, `created_at`, `updated_at` and `occurred_at` are left out: no code of the ledger
-- branches on them but the statistics.
use surreal_memory_server.Common.{ℕ, String, Bool, Option, List}
use surreal_memory_server.Ledger.State.{OperationState}

pub record OperationRequest (V : Type 0) : Type 0 where
  pub operation_id : String
  pub schema_version : ℕ
  pub kind : String
  pub dependencies : List String
  pub payload_hash : String
  pub payload : V

-- `DbOperation`. The column `state` holds the text of a state, which `State.parse_state` reads
-- back; the model keeps the state itself.
pub record Operation (V : Type 0) : Type 0 where
  pub operation_id : String
  pub schema_version : ℕ
  pub kind : String
  pub dependencies : List String
  pub payload_hash : String
  pub payload : V
  pub state : OperationState
  pub blocked_by : List String
  pub result : Option V
  pub error : Option String
  pub executor_generation : ℕ
  pub executor_progress_seq : ℕ
  pub executor_exit_count : ℕ
  pub executor_last_exit : Option String
  pub executor_error : Option String
  pub progress_seq : ℕ

-- `OperationReceipt`: the row without its payload.
pub record Receipt (V : Type 0) : Type 0 where
  pub operation_id : String
  pub schema_version : ℕ
  pub kind : String
  pub payload_hash : String
  pub dependencies : List String
  pub state : OperationState
  pub blocked_by : List String
  pub result : Option V
  pub error : Option String
  pub executor_generation : ℕ
  pub executor_progress_seq : ℕ
  pub executor_exit_count : ℕ
  pub executor_last_exit : Option String
  pub executor_error : Option String
  pub progress_seq : ℕ

-- The `json!` literals that the ledger attaches to events.
pub data Detail : Type 0 where
  durably_accepted dependencies_not_committed contract_rejected contract_validated : Detail
  dependency_ordered outcome_committed : Detail
  plan_of : ℕ → ℕ → Detail
  executor_generation_is : ℕ → Detail
  paused permanent_failure by_operator : String → Detail

-- `OperationEvent` and `DbOperationEvent`.
pub record Event : Type 0 where
  pub operation_id : String
  pub sequence : ℕ
  pub from_state : Option OperationState
  pub to_state : OperationState
  pub detail : Option Detail
  pub executor_generation : ℕ

pub data PartState : Type 0 where
  planned indexed : PartState

-- `DbOperationPart`.
pub record Part (F : Type 0) : Type 0 where
  pub operation_id : String
  pub part_index : ℕ
  pub token_start : ℕ
  pub token_end : ℕ
  pub token_count : ℕ
  pub token_hash : String
  pub content : String
  pub state : PartState
  pub embedding : Option (List F)

-- `EmbeddingPlanPart` of crates/surreal-memory/src/embeddings/mod.rs.
pub record PlanPart : Type 0 where
  pub part_index : ℕ
  pub token_start : ℕ
  pub token_end : ℕ
  pub token_count : ℕ
  pub token_hash : String
  pub content : String

-- The ledger's database. The newest event stands first.
pub record Tables (V F : Type 0) : Type 0 where
  pub operations : List (Operation V)
  pub events : List Event
  pub parts : List (Part F)

-- The causes by which the ledger tells the errors of its chain apart, `anyhow::Error`. The flag of
-- the two connection errors is their field `recovered`.
pub data Error : Type 0 where
  missing statement_failed : Error
  already_terminal : String → OperationState → Error
  permanent other : String → Error
  deadline_exceeded connection_lost : Bool → Error

-- How the database answers one call: it serves it, it fails before the statement has any effect,
-- or the statement runs and only its answer is lost.
pub data Outcome : Type 0 where
  served : Outcome
  refused unanswered : Error → Outcome

-- All that the service reads and writes. `outcomes` are the answers of the database to the calls
-- to come; behind its end every call is served. `published` is the broadcast channel and `wakes`
-- the wake queue, newest first.
pub record World (V F S : Type 0) : Type 0 where
  pub tables : Tables V F
  pub outcomes : List Outcome
  pub published : List Event
  pub wakes : List String
  pub in_flight : Option String
  pub store : S
