-- ===== src/Retry/Operation/Limits.antt =====
-- How often an operation and a connection are tried, and what a lost connection does to later calls.
use surreal_memory_server.Common.{
  List, [], ◌∷◌, ℕ, zero, suc, String, ◌+◌, ◌-◌, ◌*◌, Result, ok, err, ◌≡◌, refl, ◌≤◌, arith,
}
use surreal_memory_server.Retry.{DbError, RetryAction, retry, reconnect, fail_fast}
use surreal_memory_server.Retry.Operation.{
  failed, Storage, OpError, live_db, classify_error, connect_from, connect_with_attempts,
  reconnect_with_attempts, recover, after_attempt, attempt_on, retry_operation_inner,
}

module _ {Db W R : Type 0} (text_of : DbError → String) (lower : String → String)
    (connect : W → Result Db String × W) (op : Db → W → Result R OpError × W)
    (ops connects : W → ℕ) where
  -- Between two states at most so many operations and connections were tried.
  abbrev pub Within : ℕ → ℕ → W → W → Type 0
  Within n b v w = (ops w ≤ ops v + n) × (connects w ≤ connects v + b)

  module _ (op_once : (db : Db) (w : W) → Within 1 0 w (op db w).1)
      (connect_once : (w : W) → Within 0 1 w (connect w).1) where
    connect_answered :
        (attempt n : ℕ) (w : W) (r : Result Db String)
        → (connect w).0 ≡ r
        → ((v : W) → Within 0 (n + 1) v (connect_from text_of lower connect op (attempt + 1) n v).1)
        → Within 0 (suc n + 1) w (connect_from text_of lower connect op attempt (suc n) w).1
    unfolding connect_from
    connect_answered attempt n w (ok db) e ih =
        rw (e, connect_from) (let (same, more) = connect_once w in (omega arith, omega arith))
    connect_answered attempt n w (err msg) e ih =
        rw (e, connect_from)
          (let (same, more) = connect_once w in
            let (none_else, rest) = ih (connect w).1 in (omega arith, omega arith))

    connect-Within :
        (attempt n : ℕ) (w : W)
        → Within 0 (n + 1) w (connect_from text_of lower connect op attempt n w).1
    unfolding connect_from
    connect-Within attempt zero w = connect_once w
    connect-Within attempt (suc n) w =
        connect_answered attempt n w _ refl (λ v. connect-Within (attempt + 1) n v)

    recover-Within :
        (a : RetryAction) (s : Storage Db W)
        → Within 0 3 s.world (recover text_of lower connect op a s).world
    unfolding recover reconnect_with_attempts connect_with_attempts
    recover-Within reconnect s = connect-Within 0 2 s.world
    recover-Within retry s = (omega arith, omega arith)
    recover-Within fail_fast s = (omega arith, omega arith)

    -- The rest of a call, with so many attempts left.
    abbrev Rest : ℕ → (Storage Db W → Result R OpError × Storage Db W) → Type 0
    Rest left again = (t : Storage Db W) → Within left (3 * (left - 1)) t.world (again t).1.world

    recovered-Within :
        (left : ℕ) (again : Storage Db W → Result R OpError × Storage Db W) (a : RetryAction)
        (s : Storage Db W)
        → Rest (suc left) again
        → Within
            (suc left)
            (3 * suc left)
            s.world
            (again (recover text_of lower connect op a s)).1.world
    recovered-Within left again a s rest =
        let (more, conns) = rest (recover text_of lower connect op a s) in
        let (m, k) = recover-Within a s in (omega arith, omega arith)

    after_failure-Within :
        (left : ℕ) (again : Storage Db W → Result R OpError × Storage Db W) (e : OpError)
        (a : RetryAction) (s : Storage Db W)
        → classify_error text_of lower connect op e ≡ a
        → Rest left again
        → Within left
            (3 * left)
            s.world
            (after_attempt text_of lower connect op left again (err e) s).1.world
    unfolding after_attempt
    after_failure-Within zero again e a s at rest = (omega arith, omega arith)
    after_failure-Within (suc left) again e fail_fast s at rest =
        rw (at, after_attempt) (omega arith, omega arith)
    after_failure-Within (suc left) again e retry s at rest =
        rw (at, after_attempt) (recovered-Within left again _ s rest)
    after_failure-Within (suc left) again e reconnect s at rest =
        rw (at, after_attempt) (recovered-Within left again _ s rest)

    after_attempt-Within :
        (left : ℕ) (again : Storage Db W → Result R OpError × Storage Db W) (r : Result R OpError)
        (s : Storage Db W)
        → Rest left again
        → Within left
            (3 * left)
            s.world
            (after_attempt text_of lower connect op left again r s).1.world
    unfolding after_attempt
    after_attempt-Within left again (ok v) s rest = (omega arith, omega arith)
    after_attempt-Within left again (err e) s rest = after_failure-Within left again e _ s refl rest

    attempt_on-Within :
        (left : ℕ) (again : Storage Db W → Result R OpError × Storage Db W) (d : Result Db OpError)
        (s : Storage Db W)
        → Rest left again
        → Within
            (suc left)
            (3 * left)
            s.world
            (attempt_on text_of lower connect op left again d s).1.world
    unfolding attempt_on
    attempt_on-Within left again (err e) s rest = (omega arith, omega arith)
    attempt_on-Within left again (ok db) s rest =
        let (one, same) = op_once db s.world in
        let (more, conns) =
          after_attempt-Within left again (op db s.world).0 (record s { world = (op db s.world).1 })
            rest in
        (omega arith, omega arith)

    -- A call with a limit of `n` attempts runs the operation at most `n` times and tries to connect
    -- at most `3 * (n - 1)` times, if one run of the operation and one try to connect count as one.
    pub retry_operation_inner-Within :
        (n : ℕ) (s : Storage Db W)
        → Within n
            (3 * (n - 1))
            s.world
            (retry_operation_inner text_of lower connect op n s).1.world
    unfolding retry_operation_inner
    retry_operation_inner-Within zero s = (omega arith, omega arith)
    retry_operation_inner-Within (suc left) s =
        let (more, conns) =
          attempt_on-Within left (λ t. retry_operation_inner text_of lower connect op left t)
            (live_db s.connection) s (λ t. retry_operation_inner-Within left t) in
        (omega arith, omega arith)

module _ {Db W R : Type 0} (text_of : DbError → String) (lower : String → String)
    (connect : W → Result Db String × W) where
  -- Calls one after another, each with its limit of attempts.
  abbrev pub calls : List (ℕ × (Db → W → Result R OpError × W)) → Storage Db W → Storage Db W
  calls [] s = s
  calls ((n, op) ∷ later) s = calls later (retry_operation_inner text_of lower connect op n s).1

  failed-stays :
      (op : Db → W → Result R OpError × W) (n : ℕ) (msg : String) (s : Storage Db W)
      → s.connection ≡ failed msg
      → (retry_operation_inner text_of lower connect op n s).1 ≡ s
  unfolding retry_operation_inner attempt_on live_db
  failed-stays op zero msg s h = refl
  failed-stays op (suc left) msg s h = rw (h, live_db) refl

  -- Once a try to connect again has failed, all later calls leave the storage as it is: none of them
  -- runs its operation or tries to connect, whether the database is back or not.
  pub retry_operation_inner-failed :
      (later : List (ℕ × (Db → W → Result R OpError × W))) (msg : String) (s : Storage Db W)
      → s.connection ≡ failed msg
      → calls later s ≡ s
  retry_operation_inner-failed [] msg s h = refl
  retry_operation_inner-failed ((n, op) ∷ later) msg s h =
      rw (failed-stays op n msg s h) (retry_operation_inner-failed later msg s h)
