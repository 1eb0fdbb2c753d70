-- ===== src/Ledger/Settle.antt =====
-- How an operation is blocked, paused, rejected or finished: `dependency_blockers`,
-- `record_processing_error`, `reject_permanent_failure` and `finish_operation` of
-- src/operations.rs.
pub mod Repeats
pub mod Sound
use surreal_memory_server.Common.{
  String, Bool, true, false, Option, none, some, List, [], ◌∷◌, if◌then◌else◌,
}
use surreal_memory_server.Common.Sort.{sort, dedup}
use surreal_memory_server.Ledger.State.{OperationState, indexed, committed, is_terminal}
use surreal_memory_server.Ledger.Types.{Receipt, outcome_committed, Error, World}
use surreal_memory_server.Ledger.Monad.{Result, ok, err, M, pure, attempt, ◌>>=◌, ◌>>◌}
use surreal_memory_server.Ledger.Transition.{or_missing, get, transition}
use surreal_memory_server.Ledger.Changes.{
  pause, reject_failure, finished, is_committed, is_indexed, same_error, blocks,
}
use surreal_memory_server.Ledger.Env.{Env}
use surreal_memory_server.Ledger.Operator.{bounded_error}

module _ {V F S : Type 0} where
  unfoldable pub blockers_among : List String → M (World V F S) (List String)
  blockers_among [] = pure []
  blockers_among (d ∷ ds) = do
    found ← get d
    rest ← blockers_among ds
    pure (if blocks found then d ∷ rest else rest)

  unfoldable pub dependency_blockers : List String → M (World V F S) (List String)
  unfolding blockers_among
  dependency_blockers ds = do blockers ← blockers_among ds; pure (dedup (sort blockers))

module _ {V F S : Type 0} (env : Env V F S) where
  -- What `let _ =` drops.
  abbrev ignore : {A : Type 0} → Result A → M (World V F S) (Unit {0})
  ignore r = pure tt

  -- A failure that repeats unchanged adds no event.
  unfoldable pub pause_found :
      String → String → Result (Option (Receipt V)) → M (World V F S) (Unit {0})
  pause_found id message (err e) = pure tt
  pause_found id message (ok none) = pure tt
  pause_found id message (ok (some r)) =
      if is_terminal r.state
      then pure tt
      else if same_error r.error message
      then pure tt
      else (do end ← attempt (transition env.record_key id (pause r message)); ignore end)

  unfoldable pub record_processing_error : String → Error → M (World V F S) (Unit {0})
  unfolding pause_found
  record_processing_error id e = do
    found ← attempt (get id)
    pause_found id (bounded_error (env.render e)) found

  unfoldable pub or_record : String → Error → Result (Receipt V) → M (World V F S) (Unit {0})
  unfolding record_processing_error
  or_record id e (ok r) = pure tt
  or_record id e (err x) = record_processing_error id e

  unfoldable pub reject_permanent_failure : String → Error → M (World V F S) (Unit {0})
  unfolding or_record
  reject_permanent_failure id e = do
    end ← attempt (transition env.record_key id (reject_failure (bounded_error (env.render e))))
    or_record id e end

  unfoldable pub commit : String → V → M (World V F S) (Unit {0})
  commit id result = do
    transition env.record_key id (finished committed result (some outcome_committed))
    pure tt

  unfoldable pub finish_from : String → V → Receipt V → M (World V F S) (Unit {0})
  unfolding commit
  finish_from id result current =
      if is_committed current.state
      then pure tt
      else if is_indexed current.state
      then commit id result
      else (do transition env.record_key id (finished indexed result none); commit id result)

  unfoldable pub finish_operation : String → V → M (World V F S) (Unit {0})
  unfolding finish_from
  finish_operation id result = do
    found ← get id
    current ← or_missing found
    finish_from id result current
