-- ===== src/Ledger/AddMemory.antt =====
-- `process_add_memory` of src/operations.rs: plan, embed each unfinished part, store one memory.
pub mod Sound
use surreal_memory_server.Common.{
  ℕ, ◌≤◌, String, Bool, true, false, Option, none, some, List, [], ◌∷◌, ◌&&◌, ◌||◌, not, ◌^◌, eqb,
  ltb, any, length, is_empty, is_some, if◌then◌else◌,
}
use Prim.Native.Nat.{max}
use surreal_memory_server.Ledger.State.{OperationState, planned, processing}
use surreal_memory_server.Ledger.Types.{
  Operation, plan_of, executor_generation_is, Part, PartState, PlanPart, Error, permanent, other,
  World,
}
use surreal_memory_server.Ledger.Monad.{
  Result, ok, err, M, pure, raise, attempt, lift, call, ◌>>=◌, ◌>>◌,
}
use surreal_memory_server.Ledger.Transition.{transition}
use surreal_memory_server.Ledger.Changes.{to, is_validated, is_planned, is_processing}
use surreal_memory_server.Ledger.Env.{AddMemoryRequest, Snapshot, Env}
use surreal_memory_server.Ledger.Plan.{
  operation_parts, persist_plan, mark_part_indexed, persist_executor_snapshot, validate_stored_plan,
}
use surreal_memory_server.Ledger.Aggregate.{Floats, aggregate_embeddings}
use surreal_memory_server.Ledger.Settle.{finish_operation}

abbrev is_indexed_state : PartState → Bool
is_indexed_state PartState.indexed = true
is_indexed_state PartState.planned = false

module _ {F : Type 0} where
  -- A part that needs no more work.
  unfoldable pub is_finished : Part F → Bool
  is_finished p = is_indexed_state p.state && is_some p.embedding

  -- `parts.iter().map(|part| part.token_end).max().unwrap_or(0)`.
  unfoldable pub last_token : List (Part F) → ℕ
  last_token [] = 0
  last_token (p ∷ ps) = max p.token_end (last_token ps)

-- The token count of the memory, which must fit `u32`; none where the tokenizer is not exact.
unfoldable pub token_count_of : ℕ → Result (Option ℕ)
token_count_of n =
    if eqb n 0
    then ok none
    else if ltb n (2 ^ 32)
    then ok (some n)
    else err (other "logical memory token count exceeds u32")

unfoldable pub or_permanent : {A : Type 0} → String → Option A → Result A
or_permanent message none = err (permanent message)
or_permanent message (some a) = ok a

unfoldable pub snapshot_of : {V : Type 0} → Operation V → Snapshot
snapshot_of o = record {
  generation = o.executor_generation;
  progress_seq = o.executor_progress_seq;
  exit_count = o.executor_exit_count;
  last_exit = o.executor_last_exit;
  error = o.executor_error;
}

module _ {V F S : Type 0} (env : Env V F S) (floats : Floats F) where
  -- The parts of a content: they are stored, and read back.
  unfoldable pub plan_parts : String → String → M (World V F S) (List (Part F))
  plan_parts id content = do
    planned_end ← attempt (call (env.plan_for_operation id content))
    persist_executor_snapshot env id
    plan ← lift planned_end
    if is_empty plan
        then raise (permanent "embedding planner returned no parts")
        else (do persist_plan id plan; operation_parts id)

  -- The loop over the stored parts.
  unfoldable pub embed_part : String → Part F → M (World V F S) (Unit {0})
  embed_part id p = if is_finished p then pure tt else (do
    embedded ← attempt (call (env.embed_for_operation id p.part_index p.content))
    persist_executor_snapshot env id
    embedding ← lift embedded
    mark_part_indexed id p.part_index embedding)

  unfoldable pub embed_parts : String → List (Part F) → M (World V F S) (Unit {0})
  unfolding embed_part
  embed_parts id [] = pure tt
  embed_parts id (p ∷ ps) = do embed_part id p; embed_parts id ps

  unfoldable pub to_planned :
      Operation V → List (Part F) → OperationState → M (World V F S) OperationState
  to_planned o parts state =
      if is_validated state
      then (do
        transition env.record_key o.operation_id
            (to planned (some (plan_of (length parts) (last_token parts))))
        pure planned)
      else pure state

  unfoldable pub to_processing : Operation V → OperationState → M (World V F S) OperationState
  to_processing o state =
      if is_planned state
      then (do
        transition env.record_key o.operation_id
            (to processing (some (executor_generation_is o.executor_generation)))
        pure processing)
      else pure state

  -- Store the logical memory once every part is indexed.
  unfoldable pub store_memory :
      Operation V → AddMemoryRequest → List (Part F) → M (World V F S) (Unit {0})
  store_memory o request parts =
      if any (λ p. not (is_finished p)) parts
      then raise (other "operation parts are not fully indexed")
      else (do
        aggregate ← lift (aggregate_embeddings floats parts)
        token_count ← lift (token_count_of (last_token parts))
        stored ←
            call (
              env.store_indexed_memory (env.record_key o.operation_id) request aggregate
                token_count)
        finish_operation env o.operation_id stored)

  unfoldable pub planned_or_stored :
      Operation V → AddMemoryRequest → List (Part F) → M (World V F S) (List (Part F))
  unfolding plan_parts
  planned_or_stored o request stored =
      if is_empty stored then plan_parts o.operation_id request.content else pure stored

  unfoldable pub embed_when_processing :
      String → List (Part F) → OperationState → M (World V F S) (Unit {0})
  unfolding embed_parts
  embed_when_processing id parts state =
      if is_processing state then embed_parts id parts else pure tt

  -- Every part must be indexed in the rows themselves before the memory is stored.
  unfoldable pub embed_and_store :
      Operation V → AddMemoryRequest → List (Part F) → OperationState → M (World V F S) (Unit {0})
  unfolding embed_when_processing store_memory
  embed_and_store o request parts state = do
    embed_when_processing o.operation_id parts state
    indexed_parts ← operation_parts o.operation_id
    store_memory o request indexed_parts

  unfoldable pub process_add_memory : Operation V → OperationState → M (World V F S) (Unit {0})
  unfolding planned_or_stored to_planned to_processing embed_and_store
  process_add_memory o state = do
    request ← lift (or_permanent "invalid add_memory payload" (env.add_memory_of o.payload))
    call (env.prepare_operation o.operation_id (snapshot_of o))
    stored ← operation_parts o.operation_id
    parts ← planned_or_stored o request stored
    lift (validate_stored_plan parts)
    state' ← to_planned o parts state
    state'' ← to_processing o state'
    embed_and_store o request parts state''
