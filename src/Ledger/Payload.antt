-- ===== src/Ledger/Payload.antt =====
-- `validate_payload` of src/operations.rs and the `validate` methods that it calls.
use surreal_memory_server.Common.{String, Option, none, some, ◌==◌, ◌||◌, if◌then◌else◌}
use surreal_memory_server.Common.Text.{is_blank}
use surreal_memory_server.Ledger.Request.{rekey_agent_id_kind}
use surreal_memory_server.Ledger.Env.{
  AddMemoryRequest, CreateTaskStreamPayload, AddTaskStepPayload, CompleteStepPayload,
  RekeyAgentIdPayload, Env,
}

-- The message of the first failed check.
unfoldable pub check_add_memory : AddMemoryRequest → Option String
check_add_memory r = if is_blank r.content then some "content cannot be empty" else none

unfoldable pub check_create_task_stream : CreateTaskStreamPayload → Option String
check_create_task_stream p =
    if is_blank p.name then some "task stream name cannot be empty" else none

unfoldable pub check_add_task_step : AddTaskStepPayload → Option String
check_add_task_step p =
    if is_blank p.stream_name || is_blank p.name || is_blank p.idempotency_key
    then some "stream_name, name, and idempotency_key cannot be empty"
    else none

unfoldable pub check_complete_step : CompleteStepPayload → Option String
check_complete_step p =
    if is_blank p.idempotency_key then some "idempotency_key cannot be empty" else none

unfoldable pub check_rekey_agent_id : RekeyAgentIdPayload → Option String
check_rekey_agent_id p = if is_blank p.to_agent_id then some "to_agent_id cannot be empty" else none

-- Read the payload, or say that it is malformed; then check it.
abbrev pub checked : {P : Type 0} → String → (P → Option String) → Option P → Option String
checked malformed check none = some malformed
checked malformed check (some p) = check p

-- `none` where the payload is valid, and otherwise the text of the error.
unfoldable pub validate_payload : {V F S : Type 0} → Env V F S → String → V → Option String
unfolding check_add_memory check_create_task_stream check_add_task_step check_complete_step
    check_rekey_agent_id
validate_payload env kind payload =
    if kind == "add_memory"
    then checked "invalid add_memory payload" check_add_memory (env.add_memory_of payload)
    else if kind == "create_task_stream"
    then checked "invalid create_task_stream payload" check_create_task_stream
        (env.create_task_stream_of payload)
    else if kind == "add_task_step"
    then checked "invalid add_task_step payload" check_add_task_step (env.add_task_step_of payload)
    else if kind == "complete_step"
    then checked "invalid complete_step payload" check_complete_step (env.complete_step_of payload)
    else if kind == rekey_agent_id_kind
    then checked "invalid rekey_agent_id payload" check_rekey_agent_id
        (env.rekey_agent_id_of payload)
    else some "unknown operation kind"
