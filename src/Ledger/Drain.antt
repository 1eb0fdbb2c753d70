-- ===== src/Ledger/Drain.antt =====
-- The coordinator: `list_nonterminal_ids`, `drain_pending` and `reconcile_nonterminal` of
-- src/operations.rs.
pub mod Sound
use surreal_memory_server.Common.{
  ℕ, zero, suc, String, Bool, true, false, Option, none, some, List, [], ◌∷◌, ◌++◌, map, ◌==◌, ◌&&◌,
  ◌||◌, not, any, keep, if◌then◌else◌,
}
use surreal_memory_server.Common.Sort.{sort, dedup}
use surreal_memory_server.Ledger.State.{
  OperationState, accepted, validated, blocked, planned, processing, indexed, committed, rejected,
}
use surreal_memory_server.Ledger.Types.{
  Operation, Receipt, Tables, Error, already_terminal, permanent, deadline_exceeded,
  connection_lost, World,
}
use surreal_memory_server.Ledger.Monad.{
  Result, ok, err, M, pure, raise, attempt, modify, ◌>>=◌, ◌>>◌, fetch,
}
use surreal_memory_server.Ledger.Transition.{get}
use surreal_memory_server.Ledger.Changes.{is_committed}
use surreal_memory_server.Ledger.Env.{Env}
use surreal_memory_server.Ledger.Aggregate.{Floats}
use surreal_memory_server.Ledger.Settle.{record_processing_error, reject_permanent_failure}
use surreal_memory_server.Ledger.Process.{process}

-- `NONTERMINAL_OPERATION_STATES`.
abbrev pub nonterminal_operation_states : List OperationState
nonterminal_operation_states = accepted ∷ validated ∷ blocked ∷ planned ∷ processing ∷ indexed ∷ []

abbrev pub same_state : OperationState → OperationState → Bool
same_state accepted accepted = true
same_state validated validated = true
same_state blocked blocked = true
same_state planned planned = true
same_state processing processing = true
same_state indexed indexed = true
same_state committed committed = true
same_state rejected rejected = true
same_state _ _ = false

-- `SELECT operation_id FROM memory_operation WHERE state = $state ORDER BY operation_id ASC`.
unfoldable pub ids_in : {V : Type 0} → OperationState → List (Operation V) → List String
ids_in s os = sort (map (λ o. o.operation_id) (keep (λ o. same_state o.state s) os))

module _ {V F S : Type 0} where
  unfoldable pub ids_in_states : List OperationState → M (World V F S) (List String)
  ids_in_states [] = pure []
  ids_in_states (s ∷ ss) = do
    ids ← fetch (λ t. ids_in s t.operations)
    rest ← ids_in_states ss
    pure (ids ++ rest)

  unfoldable pub list_nonterminal_ids : M (World V F S) (List String)
  unfolding ids_in_states
  list_nonterminal_ids = do
    ids ← ids_in_states nonterminal_operation_states
    pure (dedup (sort ids))

abbrev pub contains : String → List String → Bool
contains id = any (λ j. j == id)

abbrev pub without : String → List String → List String
without id = keep (λ j. not (j == id))

-- The variables of `drain_pending`.
pub record Draining : Type 0 where
  pub pending : List String
  pub queued : List String
  pub retried : List String
  pub rescan_after_wave : Bool

-- What the coordinator does about an error of `process`.
pub data Remedy : Type 0 where
  nothing reject_it retry_it pause_it : Remedy

-- `is_already_terminal`, `is_permanent_failure` and `is_recovered_ledger_deadline`, in turn. An
-- operation is put back only if it was not yet.
unfoldable pub remedy : Error → Bool → Remedy
remedy (already_terminal id s) again = nothing
remedy (permanent m) again = reject_it
remedy (deadline_exceeded true) false = retry_it
remedy (connection_lost true) false = retry_it
remedy _ again = pause_it

-- The ids of a rescan that are not queued yet go to the end.
unfoldable pub enqueue : List String → Draining → Draining
enqueue [] d = d
enqueue (id ∷ ids) d = enqueue ids (
    if contains id d.queued
    then d
    else record d { pending = d.pending ++ id ∷ []; queued = id ∷ d.queued })

module _ {V F S : Type 0} (env : Env V F S) (floats : Floats F) where
  set_in_flight : Option String → M (World V F S) (Unit {0})
  set_in_flight x = modify (λ w. record w { in_flight = x })

  unfoldable pub apply_remedy : String → Error → Draining → Remedy → M (World V F S) Draining
  apply_remedy id e d nothing = pure d
  apply_remedy id e d reject_it = do reject_permanent_failure env id e; pure d
  apply_remedy id e d retry_it = pure (record d {
    pending = d.pending ++ id ∷ [];
    queued = id ∷ d.queued;
    retried = id ∷ d.retried;
  })
  apply_remedy id e d pause_it = do record_processing_error env id e; pure d

  abbrev pub committed_now : Result (Option (Receipt V)) → Bool
  committed_now (err e) = false
  committed_now (ok none) = false
  committed_now (ok (some r)) = is_committed r.state

  unfoldable pub after_process : String → Draining → Result (Unit {0}) → M (World V F S) Draining
  unfolding apply_remedy
  after_process id d (err e) = apply_remedy id e d (remedy e (contains id d.retried))
  after_process id d (ok _) = do
    found ← attempt (get id)
    pure (record d { rescan_after_wave = d.rescan_after_wave || committed_now found })

  -- One operation, with `in_flight` set for as long as it is processed.
  unfoldable pub drain_one : String → Draining → M (World V F S) Draining
  unfolding set_in_flight after_process
  drain_one id d = do
    set_in_flight (some id)
    processed ← attempt (process env floats id)
    set_in_flight none
    after_process id d processed

  unfoldable pub rescanned : Draining → Result (List String) → Option Draining
  rescanned d (err e) = none
  rescanned d (ok ids) = some (enqueue ids (record d { rescan_after_wave = false }))

  -- One round of the loops; `none` leaves them.
  unfoldable pub drain_round : List String → Draining → M (World V F S) (Option Draining)
  unfolding drain_one rescanned
  drain_round (id ∷ rest) d = do
    d' ← drain_one id (record d { pending = rest; queued = without id d.queued })
    pure (some d')
  drain_round [] d =
      if not d.rescan_after_wave
      then pure none
      else (do ids ← attempt list_nonterminal_ids; pure (rescanned d ids))

  unfoldable pub drain : ℕ → Draining → M (World V F S) (Unit {0})
  unfolding drain_round
  drain zero d = pure tt
  drain (suc fuel) d = do
    next ← drain_round d.pending d
    elim next [ none ↦ pure tt | some d' ↦ drain fuel d' ]

  unfoldable pub drain_pending : ℕ → List String → M (World V F S) (Unit {0})
  unfolding drain
  drain_pending fuel initial =
      drain fuel
        (record { pending = initial; queued = initial; retried = []; rescan_after_wave = false })

  -- The count that it returns only goes to the log.
  unfoldable pub reconcile_nonterminal : ℕ → M (World V F S) (Unit {0})
  unfolding drain_pending
  reconcile_nonterminal fuel = do ids ← list_nonterminal_ids; drain_pending fuel ids

  -- `is_recovered_ledger_deadline`.
  abbrev pub is_recovered : Error → Bool
  is_recovered (deadline_exceeded b) = b
  is_recovered (connection_lost b) = b
  is_recovered _ = false

  -- The start of `run`, `retry_recovered_ledger_once(|| self.reconcile_nonterminal())`.
  unfoldable pub retry_reconcile : ℕ → Result (Unit {0}) → M (World V F S) (Unit {0})
  unfolding reconcile_nonterminal
  retry_reconcile fuel (ok _) = pure tt
  retry_reconcile fuel (err e) = if is_recovered e then reconcile_nonterminal fuel else raise e

  unfoldable pub startup : ℕ → M (World V F S) (Unit {0})
  unfolding reconcile_nonterminal retry_reconcile
  startup fuel = do
    reconciliation ← attempt (reconcile_nonterminal fuel)
    retry_reconcile fuel reconciliation
