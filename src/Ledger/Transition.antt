-- ===== src/Ledger/Transition.antt =====
-- `get`, `get_db` and `transition` of src/operations.rs.
use surreal_memory_server.Common.{ℕ, ◌+◌, String, Option, none, some, List, ◌∷◌, if◌then◌else◌}
use surreal_memory_server.Ledger.State.{OperationState, is_terminal}
use surreal_memory_server.Ledger.Types.{
  Operation, Receipt, Detail, Event, Tables, World, missing, already_terminal,
}
use surreal_memory_server.Ledger.Monad.{M, pure, raise, modify, ◌>>=◌, ◌>>◌, fetch, write}
use surreal_memory_server.Ledger.Queries.{to_receipt, find, update, find_key, has_event}

module _ {V F : Type 0} where
  -- The row that `GET_OPERATION_RECEIPT_QUERY` selects.
  unfoldable pub receipt_of : String → Tables V F → Option (Receipt V)
  receipt_of id t = elim (find id t.operations) [ none ↦ none | some o ↦ some (to_receipt o) ]

module _ {V F S : Type 0} where
  -- `.context(…)?` on an `Option`.
  unfoldable pub or_missing : {A : Type 0} → Option A → M (World V F S) A
  or_missing none = raise missing
  or_missing (some a) = pure a

  unfoldable pub get : String → M (World V F S) (Option (Receipt V))
  unfolding receipt_of
  get id = fetch (receipt_of id)

  unfoldable pub publish : Event → M (World V F S) (Unit {0})
  publish e = modify (λ w. record w { published = e ∷ w.published })

  unfoldable pub wake : String → M (World V F S) (Unit {0})
  wake id = modify (λ w. record w { wakes = id ∷ w.wakes })

-- What a transition sets.
pub record Change (V : Type 0) : Type 0 where
  pub to : OperationState
  pub blocked_by : List String
  pub result : Option V
  pub error : Option String
  pub detail : Option Detail

module _ {V : Type 0} where
  unfoldable pub set_state : Change V → ℕ → Operation V → Operation V
  set_state c sequence o = record o {
    state = c.to;
    blocked_by = c.blocked_by;
    result = c.result;
    error = c.error;
    progress_seq = sequence;
  }

  -- The event of a transition from the row `current`.
  unfoldable pub event_of : String → Operation V → Change V → Event
  event_of id current c = record {
    operation_id = id;
    sequence = current.progress_seq + 1;
    from_state = some current.state;
    to_state = c.to;
    detail = c.detail;
    executor_generation = current.executor_generation;
  }

module _ {V F : Type 0} (record_key : String → String) where
  -- BEGIN; UPDATE memory_operation SET … WHERE operation_id = $id; CREATE event; COMMIT. The row
  -- `current` was read before, and may be stale.
  unfoldable pub apply_transition :
      String → Operation V → Change V → Tables V F → Option (Tables V F)
  apply_transition id current c t =
      if has_event record_key (record_key id) (current.progress_seq + 1) t.events
      then none
      else some (record t {
        operations = update id (set_state c (current.progress_seq + 1)) t.operations;
        events = event_of id current c ∷ t.events;
      })

module _ {V F S : Type 0} (record_key : String → String) where
  unfoldable pub get_db : String → M (World V F S) (Option (Operation V))
  get_db id = fetch (λ t. find_key record_key (record_key id) t.operations)

  -- The part of `transition` behind its guards.
  unfoldable pub commit_transition : String → Operation V → Change V → M (World V F S) (Receipt V)
  commit_transition id current c = do
    write (apply_transition record_key id current c)
    publish (event_of id current c)
    found ← get id
    or_missing found

  unfoldable pub transition : String → Change V → M (World V F S) (Receipt V)
  unfolding commit_transition
  transition id c = do
    row ← get_db id
    current ← or_missing row
    if is_terminal current.state
        then raise (already_terminal id current.state)
        else commit_transition id current c
