-- ===== src/Ledger/Process/Sound.antt =====
-- `process` under every answer of the database, the storage and the embedding service.
use surreal_memory_server.Common.{
  String, ◌≡◌, refl, sym, subst, true, false, Option, none, some, List, [], ◌∷◌, ◌==◌, ◌&&◌, ◌⊎◌,
  inl, inr, Bool-cases, eq_iff, arith, All,
}
use surreal_memory_server.Ledger.State.{
  OperationState, accepted, validated, blocked, planned, processing, indexed, committed, rejected,
  is_terminal,
}
use surreal_memory_server.Ledger.Types.{Operation, Tables}
use surreal_memory_server.Ledger.Queries.{find}
use surreal_memory_server.Ledger.Transition.{get_db}
use surreal_memory_server.Ledger.Lifecycle.{may_follow}
use surreal_memory_server.Ledger.Journal.{find_key-find}
use surreal_memory_server.Ledger.Sound.{IsCommitted}
use surreal_memory_server.Ledger.Safe.{
  Safe, Anything, Safe-pure, Safe-fetch, Safe-bind, Safe-given, Safe-strengthen, Safe-weaken,
}
use surreal_memory_server.Ledger.Guarded.{transition-Safe}
use surreal_memory_server.Ledger.Held.{At, started, step-Safe}
use surreal_memory_server.Ledger.Changes.{is_blocked, needs_validation, same_texts}
use surreal_memory_server.Ledger.Env.{Env}
use surreal_memory_server.Ledger.Payload.{validate_payload}
use surreal_memory_server.Ledger.Aggregate.{Floats}
use surreal_memory_server.Ledger.Operator.Sound.{reject_edge}
use surreal_memory_server.Ledger.Settle.Sound.{dependency_blockers-Safe, finish_operation-Safe}
use surreal_memory_server.Ledger.AddMemory.Sound.{process_add_memory-Safe}
use surreal_memory_server.Ledger.TaskOperation.Sound.{process_task_operation-Safe}
use surreal_memory_server.Ledger.Process.{
  execute, validate_then, unblocked, keep_blocked, by_blockers, process_row, process,
}

-- Any unfinished operation may be blocked.
block_edge : (s : OperationState) → is_terminal s ≡ false → may_follow s blocked ≡ true
unfolding is_terminal
block_edge accepted h = refl
block_edge committed h = cc
block_edge rejected h = cc
block_edge _ h = refl

-- From where work goes on, it goes on to `processing` or stands at `indexed`.
resumes :
    (s : OperationState)
    → is_terminal s ≡ false
    → needs_validation s ≡ false
    → (started s ≡ processing) ⊎ (started s ≡ indexed)
unfolding is_terminal
resumes accepted h n = cc
resumes validated h n = inl refl
resumes blocked h n = cc
resumes planned h n = inl refl
resumes processing h n = inl refl
resumes indexed h n = inr refl
resumes committed h n = cc
resumes rejected h n = cc

-- Whatever needs validation may be validated.
validate_edge : (s : OperationState) → needs_validation s ≡ true → may_follow s validated ≡ true
validate_edge accepted h = refl
validate_edge blocked h = refl
validate_edge validated h = refl
validate_edge _ h = cc

find-id :
    {V : Type 0} (id : String) (os : List (Operation V)) (o : Operation V)
    → find id os ≡ some o
    → o.operation_id ≡ id
unfolding find
find-id id [] o e = cc
find-id id (x ∷ os) o e = ground (arith, eq_iff x.operation_id id, find-id id os o)

module _ {V F S : Type 0} (env : Env V F S) (floats : Floats F)
    (keys : (a b : String) → env.record_key a ≡ env.record_key b → a ≡ b) (o : Operation V) where
  execute-Safe :
      (s : OperationState)
      → (started s ≡ processing) ⊎ (started s ≡ indexed)
      → Safe (At o s) (execute env floats o.operation_id o s) (λ _. At o committed)
  unfolding execute
  execute-Safe s either = elim (Bool-cases (o.kind == "add_memory")) [
    | inl e ↦ rw e (process_add_memory-Safe env floats keys o s either)
    | inr e ↦ rw e (
        Safe-bind _ _ (process_task_operation-Safe env keys o s)
          (λ v. finish_operation-Safe env keys o v (started s) either))
  ]

  validate_then-Safe :
      (message : Option String)
      → needs_validation o.state ≡ true
      → is_terminal o.state ≡ false
      → Safe (At o o.state) (validate_then env floats o.operation_id o message) (λ _. Anything)
  unfolding validate_then
  validate_then-Safe (some message) needs live =
      Safe-bind _ _ (step-Safe env.record_key keys o o.state _ (reject_edge o.state live))
        (λ r. Safe-pure _ (λ t p. tt))
  validate_then-Safe none needs live =
      Safe-bind _ _ (step-Safe env.record_key keys o o.state _ (validate_edge o.state needs))
        (λ r. Safe-weaken _ _ (λ _ t p. tt) (execute-Safe validated (inl refl)))

  unblocked-Safe :
      is_terminal o.state ≡ false
      → Safe (At o o.state) (unblocked env floats o.operation_id o) (λ _. Anything)
  unfolding unblocked
  unblocked-Safe live = elim (Bool-cases (needs_validation o.state)) [
    | inl e ↦ rw e (validate_then-Safe (validate_payload env o.kind o.payload) e live)
    | inr e ↦ rw e (Safe-weaken _ _ (λ _ t p. tt) (execute-Safe o.state (resumes o.state live e)))
  ]

  abbrev Row : Tables V F → Type 0
  Row t = find o.operation_id t.operations ≡ some o

  keep_blocked-Safe :
      (bs : List String)
      → is_terminal o.state ≡ false
      → Safe Row (keep_blocked env floats o.operation_id o bs) (λ _. Anything)
  unfolding keep_blocked
  keep_blocked-Safe bs live = elim (Bool-cases (is_blocked o.state && same_texts o.blocked_by bs)) [
    | inl e ↦ rw e (Safe-pure _ (λ t p. tt))
    | inr e ↦ rw e (
        Safe-bind _ _
          (Safe-strengthen _ _ (λ t s p x found alive. (block_edge x.state alive, λ h. cc))
            (transition-Safe env.record_key keys o.operation_id _))
          (λ r. Safe-pure _ (λ t p. tt)))
  ]

  process_row-Safe : Safe Row (process_row env floats o.operation_id (some o)) (λ _. Anything)
  unfolding process_row by_blockers
  process_row-Safe = elim (Bool-cases (is_terminal o.state)) [
    | inl e ↦ rw e (Safe-pure _ (λ t p. tt))
    | inr live ↦
        rw live
          (Safe-bind _ _ (dependency_blockers-Safe Row o.dependencies) (by_blockers-Safe live))
  ]
    where
      by_blockers-Safe :
          is_terminal o.state ≡ false
          → (bs : List String)
          → Safe
              (λ t. Row t × (bs ≡ [] → All (IsCommitted t) o.dependencies))
              (by_blockers env floats o.operation_id o bs)
              (λ _. Anything)
      by_blockers-Safe live [] =
          Safe-strengthen (At o o.state) _ (λ t _ p. (cc, (o, p.0, refl, p.1 refl)))
            (unblocked-Safe live)
      by_blockers-Safe live (b ∷ bs) =
          Safe-strengthen Row _ (λ t _ p. p.0) (keep_blocked-Safe (b ∷ bs) live)

module _ {V F S : Type 0} (env : Env V F S) (floats : Floats F)
    (keys : (a b : String) → env.record_key a ≡ env.record_key b → a ≡ b) where
  -- `process` keeps the ledger sound and only adds to it, wherever a call fails.
  pub process-Safe : (id : String) → Safe Anything (process env floats id) (λ _. Anything)
  unfolding process get_db
  process-Safe id =
      Safe-bind {Q = λ row t. find id t.operations ≡ row} _ _
        (Safe-fetch _ (λ t p. sym (find_key-find env.record_key keys id t.operations))) rows
    where
      rows :
          (row : Option (Operation V))
          → Safe (λ t. find id t.operations ≡ row) (process_row env floats id row) (λ _. Anything)
      rows none = Safe-pure _ (λ t p. tt)
      rows (some o) =
          Safe-given (o.operation_id ≡ id) _ (λ t p. find-id id t.operations o p)
            λ e.
              subst
                (λ k.
                  Safe (λ t. find k t.operations ≡ some o) (process_row env floats k (some o))
                    (λ _. Anything))
                e (process_row-Safe env floats keys o)
