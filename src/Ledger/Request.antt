-- ===== src/Ledger/Request.antt =====
-- `OperationRequest::validate` of src/operations.rs.
pub mod Valid
use surreal_memory_server.Common.{
  ℕ, String, ◌≡◌, Bool, true, false, Option, none, some, List, ◌==◌, ◌||◌, not, eqb, any,
  if◌then◌else◌,
}
use surreal_memory_server.Common.Text.{is_blank}
use surreal_memory_server.Ledger.Types.{OperationRequest}

abbrev pub operation_schema_version : ℕ
operation_schema_version = 2

abbrev pub rekey_agent_id_kind : String
rekey_agent_id_kind = "rekey_agent_id"

-- The kinds that the ledger accepts.
unfoldable pub known_kind : String → Bool
known_kind kind =
    kind == "add_memory"
    || kind == "create_task_stream"
    || kind == "add_task_step"
    || kind == "complete_step"
    || kind == rekey_agent_id_kind

pub data Invalid : Type 0 where
  empty_operation_id empty_dependency payload_not_serializable : Invalid
  unsupported_schema : ℕ → Invalid
  unknown_kind : String → Invalid
  hash_mismatch : String → String → Invalid

unfoldable pub check_hash : String → Option String → Option Invalid
check_hash supplied none = some payload_not_serializable
check_hash supplied (some actual) =
    if actual == supplied then none else some (hash_mismatch supplied actual)

-- The first check that fails, `none` where all pass. `payload_hash` is the SHA-256 of the payload
-- as compact JSON with sorted keys, or `none` where it cannot be written as JSON.
unfoldable pub validate : {V : Type 0} → (V → Option String) → OperationRequest V → Option Invalid
unfolding known_kind check_hash
validate payload_hash r =
    if is_blank r.operation_id
    then some empty_operation_id
    else if not (eqb r.schema_version operation_schema_version)
    then some (unsupported_schema r.schema_version)
    else if not (known_kind r.kind)
    then some (unknown_kind r.kind)
    else if any is_blank r.dependencies
    then some empty_dependency
    else check_hash r.payload_hash (payload_hash r.payload)
