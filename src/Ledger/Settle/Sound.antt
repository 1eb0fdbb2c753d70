-- ===== src/Ledger/Settle/Sound.antt =====
-- Blocking, pausing, rejecting and finishing under every answer of the database.
use surreal_memory_server.Common.{
  String, ◌≡◌, refl, ◌∙◌, true, false, Option, none, some, List, [], ◌∷◌, if◌then◌else◌, Bool-cases,
  ◌⊎◌, inl, inr, All, arith,
}
use surreal_memory_server.Common.Sort.{sort, sort-eq-nil, dedup-eq-nil}
use surreal_memory_server.Ledger.State.{
  OperationState, accepted, processing, indexed, committed, rejected, is_terminal,
}
use surreal_memory_server.Ledger.Types.{Operation, Receipt, Tables, Error}
use surreal_memory_server.Ledger.Monad.{Result, ok, err}
use surreal_memory_server.Ledger.Queries.{to_receipt}
use surreal_memory_server.Ledger.Transition.{Change, receipt_of}
use surreal_memory_server.Ledger.Lifecycle.{may_follow}
use surreal_memory_server.Ledger.Sound.{Sound, IsCommitted}
use surreal_memory_server.Ledger.Safe.{
  Safe, Anything, Safe-pure, Safe-attempt, Safe-bind, Safe-strengthen, Safe-given,
}
use surreal_memory_server.Ledger.Guarded.{
  CanMove, Moved, receipt-state, Safe-get, Safe-or_missing, transition-Safe,
}
use surreal_memory_server.Ledger.Held.{At, step-Safe}
use surreal_memory_server.Ledger.Changes.{pause, reject_failure, same_error, blocks}
use surreal_memory_server.Ledger.Env.{Env}
use surreal_memory_server.Ledger.Operator.{bounded_error}
use surreal_memory_server.Ledger.Operator.Sound.{reject_edge}
use surreal_memory_server.Ledger.Settle.{
  blockers_among, dependency_blockers, pause_found, record_processing_error, or_record,
  reject_permanent_failure, commit, finish_from, finish_operation,
}

-- A receipt that does not block shows a committed row.
unblocking :
    {V F : Type 0} (d : String) (t : Tables V F) (r : Option (Receipt V))
    → receipt_of d t ≡ r
    → blocks r ≡ false
    → IsCommitted t d
unfolding receipt_of to_receipt
unblocking d t none e b = cc
unblocking d t (some r) e b = ground arith

module _ {V F S : Type 0} where
  -- No blockers: every dependency is committed. Reading changes nothing.
  pub blockers_among-Safe :
      (P : Tables V F → Type 0) (ds : List String)
      → Safe {S = S} P (blockers_among ds) (λ bs t. P t × (bs ≡ [] → All (IsCommitted t) ds))
  unfolding blockers_among
  blockers_among-Safe P [] = Safe-pure _ (λ t p. (p, λ e. tt))
  blockers_among-Safe P (d ∷ ds) = Safe-bind _ _ (Safe-get P d) λ r.
      Safe-bind _ _ (blockers_among-Safe (λ t. (receipt_of d t ≡ r) × P t) ds)
        λ rest. Safe-pure _ (λ t p. (p.0.1, λ e. none_of r rest t p.0.0 p.1 e))
    where
      none_of :
          (r : Option (Receipt V)) (rest : List String) (t : Tables V F)
          → receipt_of d t ≡ r
          → (rest ≡ [] → All (IsCommitted t) ds)
          → (if blocks r then d ∷ rest else rest) ≡ []
          → All (IsCommitted t) (d ∷ ds)
      none_of r rest t shown others e = elim (Bool-cases (blocks r)) [
        | inl b ↦ let x : d ∷ rest ≡ [] = rw b at e in absurd (ground arith)
        | inr b ↦ (unblocking d t r shown b, others (rw b at e))
      ]

  pub dependency_blockers-Safe :
      (P : Tables V F → Type 0) (ds : List String)
      → Safe {S = S} P (dependency_blockers ds) (λ bs t. P t × (bs ≡ [] → All (IsCommitted t) ds))
  unfolding dependency_blockers
  dependency_blockers-Safe P ds =
      Safe-bind _ _ (blockers_among-Safe P ds)
        λ bs. Safe-pure _ (λ t p. (p.0, λ e. p.1 (sort-eq-nil bs (dedup-eq-nil (sort bs) e))))

-- A pause leaves the operation where it is.
stay_edge : (s : OperationState) → is_terminal s ≡ false → may_follow s s ≡ true
unfolding is_terminal
stay_edge accepted h = refl
stay_edge committed h = cc
stay_edge rejected h = cc
stay_edge _ h = refl

pause-CanMove :
    {V F : Type 0} (id message : String) (r : Receipt V) (t : Tables V F)
    → Sound t
    → receipt_of id t ≡ some r
    → CanMove id (pause r message) t
unfolding receipt_of to_receipt
pause-CanMove id message r t s shown o found live =
    let same : r.state ≡ o.state = ground arith in
    (rw same (stay_edge o.state live), λ ready. s.ready id o found (rw same at ready))

module _ {V F S : Type 0} (env : Env V F S)
    (keys : (a b : String) → env.record_key a ≡ env.record_key b → a ≡ b) where
  pub record_processing_error-Safe :
      (id : String) (e : Error)
      → Safe {F = F} Anything (record_processing_error env id e) (λ _. Anything)
  unfolding record_processing_error
  record_processing_error-Safe id e = Safe-bind _ _ (Safe-attempt _ (Safe-get _ id)) (found-Safe _)
    where
      found-Safe :
          (message : String) (found : Result (Option (Receipt V)))
          → Safe {F = F}
              (λ t. elim found [ ok r ↦ (receipt_of id t ≡ r) × Anything t | err x ↦ Unit {0} ])
              (pause_found env id message found)
              (λ _. Anything)
      found-Safe message (err x) = Safe-pure _ (λ t p. tt)
      found-Safe message (ok none) = Safe-pure _ (λ t p. tt)
      found-Safe message (ok (some r)) = elim (Bool-cases (is_terminal r.state)) [
        | inl ended ↦ rw ended (Safe-pure _ (λ t p. tt))
        | inr live ↦ elim (Bool-cases (same_error r.error message)) [
          | inl known ↦ rw (live, known) (Safe-pure _ (λ t p. tt))
          | inr fresh ↦
              rw (live, fresh)
                (Safe-bind _ _
                  (Safe-attempt _ (
                    Safe-strengthen _ _ (λ t s p. pause-CanMove id message r t s p.0)
                      (transition-Safe env.record_key keys id (pause r message))))
                  (λ end. Safe-pure _ (λ t p. tt)))
        ]
      ]

  pub reject_permanent_failure-Safe :
      (id : String) (e : Error)
      → Safe {F = F} Anything (reject_permanent_failure env id e) (λ _. Anything)
  unfolding reject_permanent_failure
  reject_permanent_failure-Safe id e =
      Safe-bind _ _
        (Safe-attempt _ (
          Safe-strengthen _ _ (λ t s p o found live. (reject_edge o.state live, λ h. cc))
            (transition-Safe env.record_key keys id _)))
        ended
    where
      change : Change V
      change = reject_failure (bounded_error (env.render e))

      ended :
          (end : Result (Receipt V))
          → Safe {F = F}
              (λ t. elim end [ ok r ↦ Moved id change r t | err x ↦ Unit {0} ])
              (or_record env id e end)
              (λ _. Anything)
      ended (ok r) = Safe-pure _ (λ t p. tt)
      ended (err x) = record_processing_error-Safe id e

  module _ (o : Operation V) (v : V) where
    commit-Safe : Safe {F = F} (At o indexed) (commit env o.operation_id v) (λ _. At o committed)
    unfolding commit
    commit-Safe =
        Safe-bind _ _ (step-Safe env.record_key keys o indexed _ refl) (λ r. Safe-pure _ (λ t p. p))

    -- An operation is finished from `processing` or `indexed`.
    pub finish_operation-Safe :
        (s : OperationState)
        → (s ≡ processing) ⊎ (s ≡ indexed)
        → Safe {F = F} (At o s) (finish_operation env o.operation_id v) (λ _. At o committed)
    unfolding finish_operation
    finish_operation-Safe s either = Safe-bind _ _ (Safe-get _ o.operation_id) λ found.
        Safe-bind _ _ (Safe-or_missing _ found) λ current.
          Safe-given (current.state ≡ s) _
            (λ t p. receipt-state o.operation_id s t current (p.1.0 ∙ p.0) p.1.1.0)
            λ e. Safe-strengthen (At o s) _ (λ t _ p. p.1.1) (from current e either)
      where
        from :
            (current : Receipt V)
            → current.state ≡ s
            → (s ≡ processing) ⊎ (s ≡ indexed)
            → Safe {F = F} (At o s) (finish_from env o.operation_id v current) (λ _. At o committed)
        from current e (inl p) =
            rw (p, e ∙ p)
              (Safe-bind _ _ (step-Safe env.record_key keys o processing _ refl) (λ r. commit-Safe))
        from current e (inr p) = rw (p, e ∙ p) commit-Safe
