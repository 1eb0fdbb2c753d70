-- ===== src/Retry.antt =====
-- The retries of the storage: `select_statement_error`, `write_retrying_conflicts` and
-- `classify_surreal_error` of crates/surreal-memory/src/storage/surreal.rs. An error of the
-- database is one of the two kinds that the code asks for, or its text in lower case. An attempt is
-- a function of its number and of the state `S` behind the storage.
pub mod Once
pub mod Operation
mod Examples
use surreal_memory_server.Common.{
  ℕ, zero, suc, String, Bool, true, false, ◌&&◌, ◌||◌, not, Option, none, some, List, [], ◌∷◌, ◌+◌,
  ◌^◌, any, all, leb, ltb, map, if◌then◌else◌, Result, ok, err,
}
use surreal_memory_server.Common.Sort.{sort_by}
use surreal_memory_server.Common.Words.{contains}

pub data DbError : Type 0 where
  conflict : DbError
  not_executed : DbError
  other : String → DbError

unfoldable pub is_retryable_conflict : DbError → Bool
is_retryable_conflict conflict = true
is_retryable_conflict _ = false

unfoldable pub is_not_executed : DbError → Bool
is_not_executed not_executed = true
is_not_executed _ = false

unfoldable pub find_error : (DbError → Bool) → List DbError → Option DbError
find_error p [] = none
find_error p (e ∷ es) = if p e then some e else find_error p es

unfoldable pub last_error : List DbError → Option DbError
last_error [] = none
last_error (e ∷ []) = some e
last_error (e ∷ f ∷ es) = last_error (f ∷ es)

-- The errors in the order of their statements.
unfoldable pub select_error : List DbError → Option DbError
unfolding find_error last_error is_retryable_conflict is_not_executed
select_error errors =
    if any (λ e. is_retryable_conflict e) errors
      && all (λ e. is_retryable_conflict e || is_not_executed e) errors
    then find_error (λ e. is_retryable_conflict e) errors
    else elim (find_error (λ e. not (is_not_executed e) && not (is_retryable_conflict e)) errors) [
      | some e ↦ some e
      | none ↦ last_error errors
    ]

unfoldable pub select_statement_error : List (ℕ × DbError) → Option DbError
unfolding select_error sort_by
select_statement_error errors =
    select_error (map (λ ie. ie.1) (sort_by (λ a b. leb a.0 b.0) errors))

unfoldable pub check_statements {ℓ} : {R : Type ℓ} → R → List (ℕ × DbError) → Result R DbError
unfolding select_statement_error
check_statements response errors = elim (select_statement_error errors) [
  | some e ↦ err e
  | none ↦ ok response
]

abbrev pub max_transaction_conflict_retries : ℕ
max_transaction_conflict_retries = 16

abbrev pub min : ℕ → ℕ → ℕ
min a b = if leb a b then a else b

-- In milliseconds.
unfoldable pub transaction_conflict_backoff : ℕ → ℕ
transaction_conflict_backoff attempt = min (2 ^ min attempt 6) 100

pub data WriteError : Type 0 where
  still_conflicting : ℕ → WriteError
  failed : DbError → WriteError

module _ {S T : Type 0} (attempt : ℕ → S → Result T DbError × S) (clock : ℕ → ℕ)
    (deadline : ℕ) where
  -- Whether the loop gives up after so many conflicts; `clock` is read after each.
  unfoldable pub gives_up : ℕ → Bool
  unfolding transaction_conflict_backoff
  gives_up conflicts =
      leb max_transaction_conflict_retries conflicts
      || ltb deadline (clock conflicts + transaction_conflict_backoff conflicts)

  -- `none` is a loop whose rounds are used up.
  unfoldable pub write_from : ℕ → ℕ → S → Option (Result T WriteError × S)
  unfolding gives_up is_retryable_conflict
  write_from zero conflicts s = none
  write_from (suc rounds) conflicts s = elim (attempt conflicts s).0 [
    | ok v ↦ some (ok v, (attempt conflicts s).1)
    | err e ↦
        let again = write_from rounds (conflicts + 1) (attempt conflicts s).1 in
        if is_retryable_conflict e
        then if gives_up (conflicts + 1)
          then some (err (still_conflicting (conflicts + 1)), (attempt conflicts s).1)
          else again
        else some (err (failed e), (attempt conflicts s).1)
  ]

  unfoldable pub write_retrying_conflicts : S → Option (Result T WriteError × S)
  unfolding write_from
  write_retrying_conflicts s = write_from max_transaction_conflict_retries 0 s

pub data RetryAction : Type 0 where
  retry reconnect fail_fast : RetryAction

unfoldable pub classify_text : String → RetryAction
unfolding contains
classify_text msg =
    if contains msg "connection refused"
      || contains msg "connection reset"
      || contains msg "connection closed"
      || contains msg "not connected"
      || contains msg "disconnect"
    then reconnect
    else if contains msg "timeout"
        || contains msg "timed out"
        || contains msg "too many connections"
        || contains msg "lock"
        || contains msg "serialization"
        || contains msg "backpressure"
    then retry
    else fail_fast

-- `text_of` is the text of an error, in lower case.
unfoldable pub classify_surreal_error : (DbError → String) → DbError → RetryAction
unfolding classify_text is_retryable_conflict
classify_surreal_error text_of e =
    if is_retryable_conflict e then retry else classify_text (text_of e)
