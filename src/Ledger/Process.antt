-- ===== src/Ledger/Process.antt =====
-- `process` of src/operations.rs: the coordinator's work on one operation.
pub mod Commits
pub mod Sound
use surreal_memory_server.Common.{
  String, Bool, true, false, Option, none, some, List, ◌==◌, ◌&&◌, not, is_empty, if◌then◌else◌,
}
use surreal_memory_server.Ledger.State.{OperationState, validated, is_terminal}
use surreal_memory_server.Ledger.Types.{Operation, contract_validated, World}
use surreal_memory_server.Ledger.Monad.{M, pure, ◌>>=◌, ◌>>◌}
use surreal_memory_server.Ledger.Transition.{get_db, transition}
use surreal_memory_server.Ledger.Changes.{
  to, block, reject_contract, is_blocked, needs_validation, same_texts,
}
use surreal_memory_server.Ledger.Env.{Env}
use surreal_memory_server.Ledger.Payload.{validate_payload}
use surreal_memory_server.Ledger.Aggregate.{Floats}
use surreal_memory_server.Ledger.Settle.{dependency_blockers, finish_operation}
use surreal_memory_server.Ledger.AddMemory.{process_add_memory}
use surreal_memory_server.Ledger.TaskOperation.{process_task_operation}

module _ {V F S : Type 0} (env : Env V F S) (floats : Floats F) where
  -- By kind.
  unfoldable pub execute : String → Operation V → OperationState → M (World V F S) (Unit {0})
  execute id o state =
      if o.kind == "add_memory"
      then process_add_memory env floats o state
      else (do result ← process_task_operation env o state; finish_operation env id result)

  unfoldable pub validate_then : String → Operation V → Option String → M (World V F S) (Unit {0})
  unfolding execute
  validate_then id o (some message) = do
    transition env.record_key id (reject_contract message)
    pure tt
  validate_then id o none = do
    transition env.record_key id (to validated (some contract_validated))
    execute id o validated

  unfoldable pub unblocked : String → Operation V → M (World V F S) (Unit {0})
  unfolding validate_then
  unblocked id o =
      if needs_validation o.state
      then validate_then id o (validate_payload env o.kind o.payload)
      else execute id o o.state

  -- A repeated block by the same dependencies adds no event.
  unfoldable pub keep_blocked : String → Operation V → List String → M (World V F S) (Unit {0})
  keep_blocked id o blockers =
      if is_blocked o.state && same_texts o.blocked_by blockers
      then pure tt
      else (do transition env.record_key id (block blockers); pure tt)

  unfoldable pub by_blockers : String → Operation V → List String → M (World V F S) (Unit {0})
  unfolding unblocked keep_blocked
  by_blockers id o blockers =
      if is_empty blockers then unblocked id o else keep_blocked id o blockers

  unfoldable pub process_row : String → Option (Operation V) → M (World V F S) (Unit {0})
  unfolding by_blockers
  process_row id none = pure tt
  process_row id (some o) =
      if is_terminal o.state
      then pure tt
      else (do blockers ← dependency_blockers o.dependencies; by_blockers id o blockers)

  unfoldable pub process : String → M (World V F S) (Unit {0})
  unfolding process_row
  process id = do row ← get_db env.record_key id; process_row id row
