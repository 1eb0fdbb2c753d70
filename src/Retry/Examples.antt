-- ===== src/Retry/Examples.antt =====
-- A write that meets two conflicts, and the theorem on it.
use surreal_memory_server.Common.{
  arith, [], ◌∷◌, err, ok, ◌+◌, ℕ, zero, suc, String, some, Result, ◌≡◌, refl,
}
use surreal_memory_server.Retry.{
  other, DbError, conflict, not_executed, WriteError, select_statement_error,
  write_retrying_conflicts,
}
use surreal_memory_server.Retry.Operation.{
  Storage, connected, failed, OpError, typed, untyped, retry_operation_inner,
}
use surreal_memory_server.Retry.Operation.Limits.{
  Within, calls, retry_operation_inner-Within, retry_operation_inner-failed,
}
use surreal_memory_server.Retry.Once.{IsOneAttempt, write_retrying_conflicts-IsOneAttempt}

-- The third attempt adds 5 to the state.
abbrev third_time : ℕ → ℕ → Result String DbError × ℕ
third_time zero s = (err conflict, s)
third_time (suc zero) s = (err conflict, s)
third_time (suc (suc n)) s = (ok "stored", s + 5)

third_time_quiet : (n u : ℕ) → (third_time n u).0 ≡ err conflict → (third_time n u).1 ≡ u
third_time_quiet zero u h = refl
third_time_quiet (suc zero) u h = refl
third_time_quiet (suc (suc n)) u h = absurd (cc (h))

abbrev clock : ℕ → ℕ
clock n = n

stored_once : write_retrying_conflicts third_time clock 1000 7 ≡ some (ok "stored", 12)
unfolding write_retrying_conflicts
stored_once = refl

-- The deadline passes before the second attempt.
given_up :
    write_retrying_conflicts third_time clock 2 7 ≡ some (err (WriteError.still_conflicting 1), 7)
unfolding write_retrying_conflicts
given_up = refl

hidden_conflict :
    select_statement_error ((3, conflict) ∷ (1, not_executed) ∷ (2, not_executed) ∷ [])
    ≡ some conflict
unfolding select_statement_error
hidden_conflict = refl

write_retrying_conflicts-IsOneAttempt_example :
    IsOneAttempt third_time clock 1000 0 7 (write_retrying_conflicts third_time clock 1000 7)
write_retrying_conflicts-IsOneAttempt_example =
    write_retrying_conflicts-IsOneAttempt third_time clock 1000 7 third_time_quiet

-- The runs of the operation and the tries to connect are counted.
abbrev reset_by_peer : String → ℕ × ℕ → Result String OpError × (ℕ × ℕ)
reset_by_peer db (ops, connects) = (err (typed (other "connection reset")), (ops + 1, connects))

abbrev refused : ℕ × ℕ → Result String String × (ℕ × ℕ)
refused (ops, connects) = (err "refused", (ops, connects + 1))

abbrev text_of : DbError → String
text_of (other text) = text
text_of e = ""

abbrev open_storage : Storage String (ℕ × ℕ)
open_storage = record { connection = connected "handle"; world = (0, 0) }

abbrev lost_storage : Storage String (ℕ × ℕ)
lost_storage = record {
  connection = failed "SurrealDB connection failed after 3 attempts";
  world = (1, 3);
}

lost : retry_operation_inner text_of (λ s. s) refused reset_by_peer 3 open_storage ≡ (
  err (untyped "Connection failed: SurrealDB connection failed after 3 attempts"),
  lost_storage,
)
unfolding retry_operation_inner
lost = refl

retry_operation_inner-Within_example :
    Within text_of
      (λ s. s)
      refused
      reset_by_peer
      (λ w. w.0)
      (λ w. w.1)
      3
      6
      (0, 0)
      (retry_operation_inner text_of (λ s. s) refused reset_by_peer 3 open_storage).1.world
retry_operation_inner-Within_example =
    retry_operation_inner-Within text_of (λ s. s) refused reset_by_peer (λ w. w.0) (λ w. w.1)
      (λ db w. (omega arith, omega arith)) (λ w. (omega arith, omega arith)) 3 open_storage

retry_operation_inner-failed_example :
    calls text_of (λ s. s) refused ((3, reset_by_peer) ∷ (1, reset_by_peer) ∷ []) lost_storage
    ≡ lost_storage
retry_operation_inner-failed_example =
    retry_operation_inner-failed text_of (λ s. s) refused
      ((3, reset_by_peer) ∷ (1, reset_by_peer) ∷ []) "SurrealDB connection failed after 3 attempts"
      lost_storage refl
