-- ===== src/Ledger/Drain/Sound.antt =====
-- The coordinator's loop under every answer of the database, the storage and the embedding
-- service.
use surreal_memory_server.Common.{
  ℕ, zero, suc, String, ◌≡◌, refl, Option, none, some, List, [], ◌∷◌, Bool-cases, inl, inr,
}
use surreal_memory_server.Ledger.State.{OperationState}
use surreal_memory_server.Ledger.Types.{Tables, Error}
use surreal_memory_server.Ledger.Monad.{Result, ok, err, M}
use surreal_memory_server.Ledger.Safe.{
  Safe-raise, Safe-if, Safe-pure, Safe, Anything, Safe-pure, Safe-fetch, Safe-attempt, Safe-modify,
  Safe-bind, Safe-strengthen, Safe-weaken,
}
use surreal_memory_server.Ledger.Guarded.{Safe-get}
use surreal_memory_server.Ledger.Env.{Env}
use surreal_memory_server.Ledger.Aggregate.{Floats}
use surreal_memory_server.Ledger.Settle.Sound.{
  record_processing_error-Safe, reject_permanent_failure-Safe,
}
use surreal_memory_server.Ledger.Process.Sound.{process-Safe}
use surreal_memory_server.Ledger.Drain.{
  retry_reconcile, startup, nonterminal_operation_states, ids_in_states, list_nonterminal_ids,
  Draining, Remedy, nothing, reject_it, retry_it, pause_it, remedy, contains, set_in_flight,
  apply_remedy, after_process, drain_one, drain_round, drain, drain_pending, reconcile_nonterminal,
}

module _ {V F S : Type 0} where
  forget :
      {A : Type 0} {P : Tables V F → Type 0} {Q : A → Tables V F → Type 0} (m : M _ A)
      → Safe {S = S} P m Q
      → Safe {S = S} P m (λ _. Anything)
  forget m h = Safe-weaken _ m (λ a t q. tt) h

  list_nonterminal_ids-Safe :
      Safe {F = F} {S = S} Anything (list_nonterminal_ids {V = V}) (λ _. Anything)
  unfolding list_nonterminal_ids
  list_nonterminal_ids-Safe =
      Safe-bind _ _ (states nonterminal_operation_states) (λ ids. Safe-pure _ (λ t p. tt))
    where
      states :
          (ss : List OperationState)
          → Safe {V = V} {F = F} {S = S} Anything (ids_in_states ss) (λ _. Anything)
      states [] = Safe-pure _ (λ t p. tt)
      states (s ∷ ss) =
          Safe-bind {Q = λ _. Anything} _ _ (Safe-fetch _ (λ t p. tt))
            λ ids. Safe-bind _ _ (states ss) (λ rest. Safe-pure _ (λ t p. tt))

module _ {V F S : Type 0} (env : Env V F S) (floats : Floats F)
    (keys : (a b : String) → env.record_key a ≡ env.record_key b → a ≡ b) where
  set_in_flight-Safe :
      (x : Option String) → Safe Anything (set_in_flight env floats x) (λ _. Anything)
  unfolding set_in_flight
  set_in_flight-Safe x = Safe-modify _ (λ w. refl) (λ t p. tt)

  apply_remedy-Safe :
      (id : String) (e : Error) (d : Draining) (r : Remedy)
      → Safe Anything (apply_remedy env floats id e d r) (λ _. Anything)
  unfolding apply_remedy
  apply_remedy-Safe id e d nothing = Safe-pure _ (λ t p. tt)
  apply_remedy-Safe id e d reject_it =
      Safe-bind _ _ (reject_permanent_failure-Safe env keys id e) (λ _. Safe-pure _ (λ t p. tt))
  apply_remedy-Safe id e d retry_it = Safe-pure _ (λ t p. tt)
  apply_remedy-Safe id e d pause_it =
      Safe-bind _ _ (record_processing_error-Safe env keys id e) (λ _. Safe-pure _ (λ t p. tt))

  after_process-Safe :
      (id : String) (d : Draining) (end : Result (Unit {0}))
      → Safe Anything (after_process env floats id d end) (λ _. Anything)
  unfolding after_process
  after_process-Safe id d (err e) = apply_remedy-Safe id e d (remedy e (contains id d.retried))
  after_process-Safe id d (ok a) =
      Safe-bind _ _ (forget _ (Safe-attempt _ (Safe-get _ id))) (λ found. Safe-pure _ (λ t p. tt))

  drain_one-Safe :
      (id : String) (d : Draining) → Safe Anything (drain_one env floats id d) (λ _. Anything)
  unfolding drain_one
  drain_one-Safe id d = Safe-bind _ _ (set_in_flight-Safe (some id)) λ _.
      Safe-bind _ _ (forget _ (Safe-attempt _ (process-Safe env floats keys id)))
        λ end. Safe-bind _ _ (set_in_flight-Safe none) (λ _. after_process-Safe id d end)

  drain_round-Safe :
      (ids : List String) (d : Draining)
      → Safe Anything (drain_round env floats ids d) (λ _. Anything)
  unfolding drain_round
  drain_round-Safe (id ∷ rest) d =
      Safe-bind _ _ (drain_one-Safe id _) (λ d'. Safe-pure _ (λ t p. tt))
  drain_round-Safe [] d = elim (Bool-cases d.rescan_after_wave) [
    | inl e ↦ simp e (
        Safe-bind _ _ (forget _ (Safe-attempt _ list_nonterminal_ids-Safe))
          (λ ids. Safe-pure _ (λ t p. tt)))
    | inr e ↦ simp e (Safe-pure _ (λ t p. tt))
  ]

  drain-Safe : (fuel : ℕ) (d : Draining) → Safe Anything (drain env floats fuel d) (λ _. Anything)
  unfolding drain
  drain-Safe zero d = Safe-pure _ (λ t p. tt)
  drain-Safe (suc fuel) d =
      Safe-bind _ _ (drain_round-Safe d.pending d)
        (elim [ none ↦ Safe-pure _ (λ t p. tt) | some d' ↦ drain-Safe fuel d' ])

  pub drain_pending-Safe :
      (fuel : ℕ) (ids : List String)
      → Safe Anything (drain_pending env floats fuel ids) (λ _. Anything)
  unfolding drain_pending
  drain_pending-Safe fuel ids = drain-Safe fuel _

  pub reconcile_nonterminal-Safe :
      (fuel : ℕ) → Safe Anything (reconcile_nonterminal env floats fuel) (λ _. Anything)
  unfolding reconcile_nonterminal
  reconcile_nonterminal-Safe fuel =
      Safe-bind _ _ list_nonterminal_ids-Safe (λ ids. drain_pending-Safe fuel ids)

  retry_reconcile-Safe :
      (fuel : ℕ) (r : Result (Unit {0}))
      → Safe Anything (retry_reconcile env floats fuel r) (λ _. Anything)
  unfolding retry_reconcile
  retry_reconcile-Safe fuel (ok _) = Safe-pure _ (λ t p. tt)
  retry_reconcile-Safe fuel (err e) =
      Safe-if _ _ _ (λ b. reconcile_nonterminal-Safe fuel) (λ b. Safe-raise e)

  pub startup-Safe : (fuel : ℕ) → Safe Anything (startup env floats fuel) (λ _. Anything)
  unfolding startup
  startup-Safe fuel =
      Safe-bind _ _ (Safe-attempt _ (reconcile_nonterminal-Safe fuel))
        (λ r. Safe-strengthen _ _ (λ t s p. tt) (retry_reconcile-Safe fuel r))
