-- ===== src/Ledger/Queries.antt =====
-- The SurrealQL statements of src/operations.rs, as functions of the tables.
use surreal_memory_server.Common.{
  ℕ, String, Bool, Option, none, some, List, [], ◌∷◌, ◌==◌, ◌&&◌, eqb, keep, any, if◌then◌else◌,
}
use surreal_memory_server.Ledger.Types.{Operation, Receipt, Event}

module _ {V : Type 0} where
  -- `TryFrom<DbOperationReceipt>`: what a receipt shows of a row.
  unfoldable pub to_receipt : Operation V → Receipt V
  to_receipt o = record {
    operation_id = o.operation_id;
    schema_version = o.schema_version;
    kind = o.kind;
    payload_hash = o.payload_hash;
    dependencies = o.dependencies;
    state = o.state;
    blocked_by = o.blocked_by;
    result = o.result;
    error = o.error;
    executor_generation = o.executor_generation;
    executor_progress_seq = o.executor_progress_seq;
    executor_exit_count = o.executor_exit_count;
    executor_last_exit = o.executor_last_exit;
    executor_error = o.executor_error;
    progress_seq = o.progress_seq;
  }

  -- `… FROM memory_operation WHERE operation_id = $id LIMIT 1`.
  unfoldable pub find : String → List (Operation V) → Option (Operation V)
  find id [] = none
  find id (o ∷ os) = let rest = find id os in if o.operation_id == id then some o else rest

  -- `UPDATE memory_operation SET … WHERE operation_id = $id`.
  unfoldable pub update :
      String → (Operation V → Operation V) → List (Operation V) → List (Operation V)
  update id f [] = []
  update id f (o ∷ os) = (if o.operation_id == id then f o else o) ∷ update id f os

-- A selection by record id, `memory_operation:⟨record_key(id)⟩`, where a row's record id is the
-- key of its operation id.
module _ {V : Type 0} (record_key : String → String) where
  unfoldable pub find_key : String → List (Operation V) → Option (Operation V)
  find_key k [] = none
  find_key k (o ∷ os) =
      let rest = find_key k os in if record_key o.operation_id == k then some o else rest

-- Whether `CREATE memory_operation_event:⟨key-sequence⟩` finds its record id taken. The id is the
-- key followed by sixteen digits, so it stands for the pair.
unfoldable pub has_event : (String → String) → String → ℕ → List Event → Bool
has_event record_key k n = any (λ e. record_key e.operation_id == k && eqb e.sequence n)

-- The events of one operation, newest first.
unfoldable pub events_of : String → List Event → List Event
events_of id = keep (λ e. e.operation_id == id)
