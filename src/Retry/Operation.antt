-- ===== src/Retry/Operation.antt =====
-- The retries of a read: `retry_operation_inner`, `reconnect_with_attempts`,
-- `connect_with_attempts`, `classify_error` and `live_db` of
-- crates/surreal-memory/src/storage/surreal.rs. `W` is the state outside the storage, `Db` a handle.
-- The waits, the deadline and the permit of the embedded mode are left out, as is the operation's
-- name in a text.
pub mod Limits
use surreal_memory_server.Common.{
  ◌+◌, ℕ, zero, suc, String, Bool, true, false, ◌||◌, ◌&&◌, if◌then◌else◌, Result, ok, err,
}
use surreal_memory_server.Common.Words.{contains, decimal}
use Prim.Native.String
use surreal_memory_server.Retry.{
  DbError, RetryAction, retry, reconnect, fail_fast, classify_surreal_error,
}

pub data ConnectionCell (Db : Type 0) : Type 0 where
  connected : Db → ConnectionCell Db
  reconnecting : ConnectionCell Db
  failed : String → ConnectionCell Db

pub record Storage (Db W : Type 0) : Type 0 where
  pub connection : ConnectionCell Db
  pub world : W

-- An error that has a database error inside, or only a text.
pub data OpError : Type 0 where
  typed : DbError → OpError
  untyped : String → OpError

unfoldable pub classify_message : String → RetryAction
unfolding contains
classify_message msg =
    if contains msg "connection refused"
      || contains msg "connection reset"
      || contains msg "connection closed"
      || contains msg "connection uninitialised"
      || contains msg "not connected"
      || contains msg "dns"
      || contains msg "network"
    then reconnect
    else if contains msg "timeout"
        || contains msg "timed out"
        || contains msg "too many connections"
        || contains msg "backpressure"
        || contains msg "lock"
        || contains msg "serialization failure"
    then retry
    else fail_fast

unfoldable pub live_db : {Db : Type 0} → ConnectionCell Db → Result Db OpError
live_db (connected db) = ok db
live_db reconnecting = err (untyped "Connection is currently reconnecting, please retry later")
live_db (failed msg) = err (untyped (String.◌++◌ "Connection failed: " msg))

abbrev pub operation_reconnect_attempts : ℕ
operation_reconnect_attempts = 2

-- `text_of` is the text of a database error in lower case, `lower` is `to_lowercase`, `connect` is
-- one attempt to connect, and `op` is the operation.
module _ {Db W R : Type 0} (text_of : DbError → String) (lower : String → String)
    (connect : W → Result Db String × W) (op : Db → W → Result R OpError × W) where
  unfoldable pub classify_error : OpError → RetryAction
  unfolding classify_message classify_surreal_error
  classify_error (typed e) = classify_surreal_error text_of e
  classify_error (untyped msg) = classify_message (lower msg)

  abbrev pub with_context : ℕ → Result Db String → Result Db String
  with_context attempt (ok db) = ok db
  with_context attempt (err e) = err (
      String.◌++◌ "SurrealDB connection failed after "
        (String.◌++◌ (decimal (attempt + 1)) " attempts"))

  -- From one attempt on, with so many attempts left after it.
  unfoldable pub connect_from : ℕ → ℕ → W → Result Db String × W
  unfolding decimal
  connect_from attempt zero w = (with_context attempt (connect w).0, (connect w).1)
  connect_from attempt (suc left) w = elim (connect w).0 [
    | ok db ↦ (ok db, (connect w).1)
    | err e ↦ connect_from (attempt + 1) left (connect w).1
  ]

  unfoldable pub connect_with_attempts : ℕ → W → Result Db String × W
  unfolding connect_from
  connect_with_attempts max_attempts w = connect_from 0 max_attempts w

  abbrev pub connection_after : Result Db String → ConnectionCell Db
  connection_after (ok db) = connected db
  connection_after (err e) = failed e

  unfoldable pub reconnect_with_attempts : ℕ → Storage Db W → Storage Db W
  unfolding connect_with_attempts
  reconnect_with_attempts attempts s =
      let answer = connect_with_attempts attempts s.world in
      record { connection = connection_after answer.0; world = answer.1 }

  -- Before the next attempt.
  unfoldable pub recover : RetryAction → Storage Db W → Storage Db W
  unfolding reconnect_with_attempts
  recover reconnect s = reconnect_with_attempts operation_reconnect_attempts s
  recover retry s = s
  recover fail_fast s = s

  abbrev pub stops : ℕ → RetryAction → Bool
  stops zero action = true
  stops (suc left) fail_fast = true
  stops (suc left) retry = false
  stops (suc left) reconnect = false

  -- What follows an attempt, with so many attempts left.
  unfoldable pub after_attempt :
      ℕ
      → (Storage Db W → Result R OpError × Storage Db W)
      → Result R OpError
      → Storage Db W
      → Result R OpError × Storage Db W
  unfolding classify_error recover
  after_attempt left again (ok v) s = (ok v, s)
  after_attempt left again (err e) s = elim (stops left (classify_error e)) [
    | true ↦ (err e, s)
    | false ↦ again (recover (classify_error e) s)
  ]

  unfoldable pub attempt_on :
      ℕ
      → (Storage Db W → Result R OpError × Storage Db W)
      → Result Db OpError
      → Storage Db W
      → Result R OpError × Storage Db W
  unfolding after_attempt
  attempt_on left again (err e) s = (err e, s)
  attempt_on left again (ok db) s =
      after_attempt left again (op db s.world).0 (record s { world = (op db s.world).1 })

  -- No round is only for a limit of no attempts.
  unfoldable pub retry_operation_inner : ℕ → Storage Db W → Result R OpError × Storage Db W
  unfolding live_db attempt_on
  retry_operation_inner zero s = (err (untyped "Operation failed with no error details"), s)
  retry_operation_inner (suc left) s =
      attempt_on left (λ t. retry_operation_inner left t) (live_db s.connection) s
