-- ===== src/Ledger/TaskOperation/Sound.antt =====
-- `process_task_operation` under every answer of the database and of the storage.
use surreal_memory_server.Common.{String, ◌≡◌, refl, Option, none, some, inl, inr, ◌==◌, Bool-cases}
use surreal_memory_server.Ledger.State.{OperationState, validated, planned}
use surreal_memory_server.Ledger.Types.{Operation, Tables}
use surreal_memory_server.Ledger.Safe.{
  Safe, Safe-pure, Safe-raise, Safe-lift, Safe-call, Safe-bind, Safe-given, Safe-strengthen,
}
use surreal_memory_server.Ledger.Held.{At, scheduled, begun, started, step-Safe}
use surreal_memory_server.Ledger.Request.{rekey_agent_id_kind}
use surreal_memory_server.Ledger.Env.{CreateTaskStreamPayload, Env}
use surreal_memory_server.Ledger.TaskOperation.{
  schedule, begin, create_unless_there, run_kind, process_task_operation,
}

module _ {V F S : Type 0} (env : Env V F S) (P : Tables V F → Type 0) where
  -- The work itself is done by the storage, and leaves the tables alone.
  run_kind-Safe : (kind : String) (payload : V) → Safe P (run_kind env kind payload) (λ _. P)
  unfolding run_kind
  run_kind-Safe kind payload = elim (Bool-cases (kind == "create_task_stream")) [
    | inl a ↦ rw a (
        Safe-bind {Q = λ _. P} _ _ (Safe-lift _ (λ p t e h. h))
          λ p. Safe-bind {Q = λ _. P} _ _ (Safe-call _ (λ x t h. h)) (there p))
    | inr a ↦ elim (Bool-cases (kind == "add_task_step")) [
      | inl b ↦
          rw (a, b)
            (Safe-bind {Q = λ _. P} _ _ (Safe-lift _ (λ p t e h. h)) λ p. Safe-call _ (λ x t h. h))
      | inr b ↦ elim (Bool-cases (kind == "complete_step")) [
        | inl c ↦
            rw (a, b, c)
              (Safe-bind {Q = λ _. P} _ _ (Safe-lift _ (λ p t e h. h))
                λ p. Safe-call _ (λ x t h. h))
        | inr c ↦ elim (Bool-cases (kind == rekey_agent_id_kind)) [
          | inl d ↦
              rw (a, b, c, d)
                (Safe-bind {Q = λ _. P} _ _ (Safe-lift _ (λ p t e h. h))
                  λ p. Safe-call _ (λ x t h. h))
          | inr d ↦ rw (a, b, c, d) (Safe-raise _)
        ]
      ]
    ]
  ]
    where
      there :
          (p : CreateTaskStreamPayload) (x : Option V)
          → Safe P (create_unless_there env p x) (λ _. P)
      there p (some v) = Safe-pure _ (λ t h. h)
      there p none = Safe-call _ (λ x t h. h)

module _ {V F S : Type 0} (env : Env V F S)
    (keys : (a b : String) → env.record_key a ≡ env.record_key b → a ≡ b) (o : Operation V) where
  schedule-Safe :
      (s : OperationState)
      → Safe {F = F} (At o s) (schedule env o s) (λ s' t. (s' ≡ scheduled s) × At o s' t)
  unfolding schedule
  schedule-Safe validated =
      Safe-bind _ _ (step-Safe env.record_key keys o validated _ refl)
        (λ r. Safe-pure _ (λ t p. (refl, p)))
  schedule-Safe _ = Safe-pure _ (λ t p. (refl, p))

  begin-Safe : (s : OperationState) → Safe {F = F} (At o s) (begin env o s) (λ _. At o (begun s))
  unfolding begin
  begin-Safe planned =
      Safe-bind _ _ (step-Safe env.record_key keys o planned _ refl) (λ r. Safe-pure _ (λ t p. p))
  begin-Safe _ = Safe-pure _ (λ t p. p)

  -- The work is done with the operation in `processing`, or as it was where it had got further.
  pub process_task_operation-Safe :
      (s : OperationState)
      → Safe {F = F} (At o s) (process_task_operation env o s) (λ _. At o (started s))
  unfolding process_task_operation
  process_task_operation-Safe s = Safe-bind _ _ (schedule-Safe s) λ s'.
      Safe-given (s' ≡ scheduled s) _ (λ t p. p.0)
        λ e.
          Safe-bind _ _
            (rw e
              (Safe-strengthen (At o (scheduled s)) _ (λ t _ p. p.1) (begin-Safe (scheduled s))))
            λ _. run_kind-Safe env (At o (started s)) o.kind o.payload
