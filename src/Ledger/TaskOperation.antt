-- ===== src/Ledger/TaskOperation.antt =====
-- `process_task_operation` of src/operations.rs.
pub mod Sound
use surreal_memory_server.Common.{
  String, Bool, true, false, Option, none, some, ◌==◌, if◌then◌else◌,
}
use surreal_memory_server.Ledger.State.{OperationState, planned, processing}
use surreal_memory_server.Ledger.Types.{Operation, dependency_ordered, other, World}
use surreal_memory_server.Ledger.Monad.{M, pure, raise, lift, call, ◌>>=◌, ◌>>◌}
use surreal_memory_server.Ledger.Transition.{transition}
use surreal_memory_server.Ledger.Changes.{to, is_validated, is_planned}
use surreal_memory_server.Ledger.Request.{rekey_agent_id_kind}
use surreal_memory_server.Ledger.Env.{CreateTaskStreamPayload, Env}
use surreal_memory_server.Ledger.AddMemory.{or_permanent}

module _ {V F S : Type 0} (env : Env V F S) where
  unfoldable pub schedule : Operation V → OperationState → M (World V F S) OperationState
  schedule o state =
      if is_validated state
      then (do
        transition env.record_key o.operation_id (to planned (some dependency_ordered))
        pure planned)
      else pure state

  unfoldable pub begin : Operation V → OperationState → M (World V F S) (Unit {0})
  begin o state =
      if is_planned state
      then (do transition env.record_key o.operation_id (to processing none); pure tt)
      else pure tt

  -- A task stream that exists already is returned as it is.
  unfoldable pub create_unless_there : CreateTaskStreamPayload → Option V → M (World V F S) V
  create_unless_there p (some existing) = pure existing
  create_unless_there p none = call (env.create_task_stream p)

  unfoldable pub run_create_task_stream : V → M (World V F S) V
  unfolding create_unless_there
  run_create_task_stream payload = do
    p ← lift (or_permanent "invalid create_task_stream payload" (env.create_task_stream_of payload))
    existing ← call (env.get_task_stream p.name p.user_id p.agent_id)
    create_unless_there p existing

  unfoldable pub run_add_task_step : V → M (World V F S) V
  run_add_task_step payload = do
    p ← lift (or_permanent "invalid add_task_step payload" (env.add_task_step_of payload))
    call (env.add_task_step p)

  unfoldable pub run_complete_step : V → M (World V F S) V
  run_complete_step payload = do
    p ← lift (or_permanent "invalid complete_step payload" (env.complete_step_of payload))
    call (env.complete_step p)

  unfoldable pub run_rekey_agent_id : V → M (World V F S) V
  run_rekey_agent_id payload = do
    p ← lift (or_permanent "invalid rekey_agent_id payload" (env.rekey_agent_id_of payload))
    call (env.rekey_unattributed_agent_id p)

  -- The `match` on the kind. Its last arm is `unreachable!`, a panic.
  unfoldable pub run_kind : String → V → M (World V F S) V
  unfolding run_create_task_stream run_add_task_step run_complete_step run_rekey_agent_id
  run_kind kind payload =
      if kind == "create_task_stream"
      then run_create_task_stream payload
      else if kind == "add_task_step"
      then run_add_task_step payload
      else if kind == "complete_step"
      then run_complete_step payload
      else if kind == rekey_agent_id_kind
      then run_rekey_agent_id payload
      else raise (other "validated operation kind")

  unfoldable pub process_task_operation : Operation V → OperationState → M (World V F S) V
  unfolding schedule begin run_kind
  process_task_operation o state = do
    state' ← schedule o state
    begin o state'
    run_kind o.kind o.payload
