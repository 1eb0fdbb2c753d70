-- ===== src/Ledger/Submit.antt =====
-- `OperationService::submit` of src/operations.rs.
pub mod Replies
pub mod Sound
use surreal_memory_server.Common.{
  ℕ, String, Bool, true, false, Option, none, some, List, [], ◌∷◌, ◌==◌, not, is_some,
  if◌then◌else◌,
}
use surreal_memory_server.Ledger.State.{accepted, is_terminal}
use surreal_memory_server.Ledger.Types.{
  OperationRequest, Operation, Receipt, Event, durably_accepted, Tables, Error, World,
}
use surreal_memory_server.Ledger.Monad.{
  Result, ok, err, M, pure, raise, attempt, ◌>>=◌, ◌>>◌, write,
}
use surreal_memory_server.Ledger.Queries.{find, find_key, has_event}
use surreal_memory_server.Ledger.Transition.{get, or_missing, publish, wake}
use surreal_memory_server.Ledger.Request.{Invalid, validate}

-- What `submit` returns: a receipt with the flag `created`, or `SubmitError::Invalid` or
-- `SubmitError::Conflict`. `SubmitError::Storage` is the error of the action.
pub data Submission (V : Type 0) : Type 0 where
  receipt : Receipt V → Bool → Submission V
  invalid : Invalid → Submission V
  conflict : Receipt V → Submission V

module _ {V : Type 0} where
  unfoldable pub new_operation : OperationRequest V → Operation V
  new_operation r = record {
    operation_id = r.operation_id;
    schema_version = r.schema_version;
    kind = r.kind;
    dependencies = r.dependencies;
    payload_hash = r.payload_hash;
    payload = r.payload;
    state = accepted;
    blocked_by = [];
    result = none;
    error = none;
    executor_generation = 0;
    executor_progress_seq = 0;
    executor_exit_count = 0;
    executor_last_exit = none;
    executor_error = none;
    progress_seq = 1;
  }

  unfoldable pub accepted_event : OperationRequest V → Event
  accepted_event r = record {
    operation_id = r.operation_id;
    sequence = 1;
    from_state = none;
    to_state = accepted;
    detail = some durably_accepted;
    executor_generation = 0;
  }

module _ {V F : Type 0} (record_key : String → String) where
  -- BEGIN; CREATE operation; CREATE event; COMMIT. It fails where a record id is taken, and at the
  -- unique index on `operation_id`.
  unfoldable pub create_operation : OperationRequest V → Tables V F → Option (Tables V F)
  create_operation r t =
      if is_some (find_key record_key (record_key r.operation_id) t.operations)
      then none
      else if is_some (find r.operation_id t.operations)
      then none
      else if has_event record_key (record_key r.operation_id) 1 t.events
      then none
      else some (record t {
        operations = new_operation r ∷ t.operations;
        events = accepted_event r ∷ t.events;
      })

module _ {V F S : Type 0} (record_key : String → String) (payload_hash : V → Option String) where
  -- The rule for an id that is in the ledger.
  unfoldable pub same_hash : OperationRequest V → Receipt V → M (World V F S) (Submission V)
  same_hash r existing =
      if existing.payload_hash == r.payload_hash
      then pure (receipt existing false)
      else pure (conflict existing)

  unfoldable pub replay : OperationRequest V → Receipt V → M (World V F S) (Submission V)
  replay r existing =
      if not (existing.payload_hash == r.payload_hash)
      then pure (conflict existing)
      else if not (is_terminal existing.state)
      then (do wake existing.operation_id; pure (receipt existing false))
      else pure (receipt existing false)

  -- The transaction failed: another submission may have won the race. A call without a connection
  -- counts as one that was refused, where the source answers without a second read.
  unfoldable pub lost_race :
      OperationRequest V → Error → Option (Receipt V) → M (World V F S) (Submission V)
  unfolding same_hash
  lost_race r e none = raise e
  lost_race r e (some existing) = same_hash r existing

  unfoldable pub after_create :
      OperationRequest V → Result (Unit {0}) → M (World V F S) (Submission V)
  unfolding lost_race
  after_create r (err e) = do existing ← get r.operation_id; lost_race r e existing
  after_create r (ok _) = do
    found ← get r.operation_id
    accepted_receipt ← or_missing found
    publish (accepted_event r)
    wake accepted_receipt.operation_id
    pure (receipt accepted_receipt true)

  unfoldable pub known_or_new :
      OperationRequest V → Option (Receipt V) → M (World V F S) (Submission V)
  unfolding replay after_create
  known_or_new r (some existing) = replay r existing
  known_or_new r none = do
    created ← attempt (write (create_operation record_key r))
    after_create r created

  unfoldable pub submit_checked :
      OperationRequest V → Option Invalid → M (World V F S) (Submission V)
  unfolding known_or_new
  submit_checked r (some i) = pure (invalid i)
  submit_checked r none = do existing ← get r.operation_id; known_or_new r existing

  unfoldable pub submit : OperationRequest V → M (World V F S) (Submission V)
  unfolding submit_checked
  submit r = submit_checked r (validate payload_hash r)
