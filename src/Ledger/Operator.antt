-- ===== src/Ledger/Operator.antt =====
-- The operator's methods `retry` and `reject` of src/operations.rs.
pub mod Replies
pub mod Sound
use surreal_memory_server.Common.{
  ℕ, String, Bool, true, false, Option, none, some, List, [], ◌∷◌, ◌==◌, ◌&&◌, ◌||◌, if◌then◌else◌,
}
use surreal_memory_server.Common.Text.{is_empty, trim, take}
use surreal_memory_server.Ledger.State.{OperationState, indexed, rejected, is_terminal}
use surreal_memory_server.Ledger.Types.{Receipt, by_operator, Error, already_terminal, World}
use surreal_memory_server.Ledger.Monad.{
  Result, ok, err, M, pure, raise, gets, attempt, call, ◌>>=◌, ◌>>◌,
}
use surreal_memory_server.Ledger.Transition.{Change, get, wake, transition}
use surreal_memory_server.Ledger.Changes.{is_indexed}
use surreal_memory_server.Ledger.Env.{Env}

-- `OperatorError` but for `Storage`, which is the error of the action. A conflict carries what its
-- message says.
pub data Refusal : Type 0 where
  not_found reason_empty being_processed already_stored : Refusal
  already : OperationState → Refusal

pub data Answer (V : Type 0) : Type 0 where
  done : Receipt V → Answer V
  refusal : Refusal → Answer V

unfoldable pub bounded_error : String → String
bounded_error = take 2000

abbrev pub is_being_processed : String → Option String → Bool
is_being_processed id none = false
is_being_processed id (some j) = j == id

abbrev pub rejection : {V : Type 0} → String → Change V
rejection reason = record {
  to = rejected;
  blocked_by = [];
  result = none;
  error = some reason;
  detail = some (by_operator reason);
}

module _ {V F S : Type 0} (env : Env V F S) where
  -- The wake is a `try_send`, which a full queue may drop; the model keeps it.
  retry_found : String → Option (Receipt V) → M (World V F S) (Answer V)
  retry_found id none = pure (refusal not_found)
  retry_found id (some r) =
      if is_terminal r.state then pure (refusal (already r.state)) else (do wake id; pure (done r))

  unfoldable pub retry : String → M (World V F S) (Answer V)
  unfolding retry_found
  retry id = do found ← get id; retry_found id found

  unfoldable pub memory_stored : String → Receipt V → M (World V F S) Bool
  memory_stored id r =
      if r.kind == "add_memory" then call (env.has_memory (env.record_key id)) else pure false

  -- An error of the transition is a conflict if it says that the operation is terminal.
  unfoldable pub rejected_or : Result (Receipt V) → M (World V F S) (Answer V)
  rejected_or (ok r) = pure (done r)
  rejected_or (err (already_terminal id s)) = pure (refusal (already s))
  rejected_or (err e) = raise e

  unfoldable pub reject_unless_stored :
      String → String → Receipt V → Bool → M (World V F S) (Answer V)
  unfolding rejected_or
  reject_unless_stored id reason r stored =
      if is_indexed r.state || stored
      then pure (refusal already_stored)
      else (do end ← attempt (transition env.record_key id (rejection reason)); rejected_or end)

  unfoldable pub reject_found : String → String → Option (Receipt V) → M (World V F S) (Answer V)
  unfolding reject_unless_stored memory_stored
  reject_found id reason none = pure (refusal not_found)
  reject_found id reason (some r) =
      if is_terminal r.state
      then pure (refusal (already r.state))
      else (do stored ← memory_stored id r; reject_unless_stored id reason r stored)

  -- The lock on `in_flight` is held to the end, so no processing starts in between.
  unfoldable pub reject_idle : String → String → Bool → M (World V F S) (Answer V)
  unfolding reject_found
  reject_idle id reason busy =
      if busy
      then pure (refusal being_processed)
      else (do found ← get id; reject_found id (bounded_error reason) found)

  unfoldable pub reject : String → String → M (World V F S) (Answer V)
  unfolding reject_idle
  reject id reason = if is_empty (trim reason) then pure (refusal reason_empty) else (do
    busy ← gets (λ w. is_being_processed id w.in_flight)
    reject_idle id (trim reason) busy)
