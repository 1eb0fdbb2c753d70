-- ===== src/Ledger/AddMemory/Sound.antt =====
-- `process_add_memory` under every answer of the database, the storage and the embedding service.
use surreal_memory_server.Common.{
  String, ◌≡◌, refl, List, [], ◌∷◌, any, not, is_empty, ◌⊎◌, inl, inr, Bool-cases,
}
use surreal_memory_server.Ledger.State.{
  OperationState, validated, planned, processing, indexed, committed,
}
use surreal_memory_server.Ledger.Types.{Operation, Part, Tables}
use surreal_memory_server.Ledger.Safe.{
  Safe, Safe-pure, Safe-raise, Safe-lift, Safe-call, Safe-attempt_call, Safe-bind, Safe-given,
  Safe-strengthen,
}
use surreal_memory_server.Ledger.Held.{At, At-kept, scheduled, begun, started, step-Safe}
use surreal_memory_server.Ledger.Changes.{is_processing}
use surreal_memory_server.Ledger.Env.{AddMemoryRequest, Env}
use surreal_memory_server.Ledger.Plan.Sound.{
  Kept, mark_part_indexed-Safe, operation_parts-Safe, persist_plan-Safe,
  persist_executor_snapshot-Safe,
}
use surreal_memory_server.Ledger.Aggregate.{Floats}
use surreal_memory_server.Ledger.Settle.Sound.{finish_operation-Safe}
use surreal_memory_server.Ledger.AddMemory.{
  is_finished, plan_parts, embed_part, embed_parts, to_planned, to_processing, store_memory,
  planned_or_stored, embed_when_processing, embed_and_store, process_add_memory,
}

module _ {V F S : Type 0} (env : Env V F S) (floats : Floats F) (P : Tables V F → Type 0)
    (kept : Kept P) (id : String) where
  plan_parts-Safe : (content : String) → Safe P (plan_parts env floats id content) (λ _. P)
  unfolding plan_parts
  plan_parts-Safe content = Safe-bind _ _ (Safe-attempt_call P _) λ end.
      Safe-bind _ _ (persist_executor_snapshot-Safe P kept id env) λ _.
        Safe-bind {Q = λ _. P} _ _ (Safe-lift _ (λ a t e p. p)) λ plan.
          elim (Bool-cases (is_empty plan)) [
            | inl none_ ↦ rw none_ (Safe-raise _)
            | inr some_ ↦ rw some_ (
                Safe-bind _ _ (persist_plan-Safe P kept id plan)
                  (λ _. operation_parts-Safe P kept id))
          ]

  embed_part-Safe : (p : Part F) → Safe P (embed_part env floats id p) (λ _. P)
  unfolding embed_part
  embed_part-Safe p = elim (Bool-cases (is_finished p)) [
    | inl finished ↦ rw finished (Safe-pure _ (λ t h. h))
    | inr open_ ↦ rw open_ (
        Safe-bind _ _ (Safe-attempt_call P _) λ end.
          Safe-bind _ _ (persist_executor_snapshot-Safe P kept id env) λ _.
            Safe-bind {Q = λ _. P} _ _ (Safe-lift _ (λ a t e h. h))
              λ v. mark_part_indexed-Safe P kept id p.part_index v)
  ]

  embed_parts-Safe : (ps : List (Part F)) → Safe P (embed_parts env floats id ps) (λ _. P)
  unfolding embed_parts
  embed_parts-Safe [] = Safe-pure _ (λ t h. h)
  embed_parts-Safe (p ∷ ps) = Safe-bind _ _ (embed_part-Safe p) (λ _. embed_parts-Safe ps)

  embed_when_processing-Safe :
      (ps : List (Part F)) (s : OperationState)
      → Safe P (embed_when_processing env floats id ps s) (λ _. P)
  unfolding embed_when_processing
  embed_when_processing-Safe ps s = elim (Bool-cases (is_processing s)) [
    | inl e ↦ rw e (embed_parts-Safe ps)
    | inr e ↦ rw e (Safe-pure _ (λ t h. h))
  ]

module _ {V F S : Type 0} (env : Env V F S) (floats : Floats F)
    (keys : (a b : String) → env.record_key a ≡ env.record_key b → a ≡ b) (o : Operation V) where
  to_planned-Safe :
      (ps : List (Part F)) (s : OperationState)
      → Safe (At o s) (to_planned env floats o ps s) (λ s' t. (s' ≡ scheduled s) × At o s' t)
  unfolding to_planned
  to_planned-Safe ps validated =
      Safe-bind _ _ (step-Safe env.record_key keys o validated _ refl)
        (λ r. Safe-pure _ (λ t p. (refl, p)))
  to_planned-Safe ps _ = Safe-pure _ (λ t p. (refl, p))

  to_processing-Safe :
      (s : OperationState)
      → Safe (At o s) (to_processing env floats o s) (λ s' t. (s' ≡ begun s) × At o s' t)
  unfolding to_processing
  to_processing-Safe planned =
      Safe-bind _ _ (step-Safe env.record_key keys o planned _ refl)
        (λ r. Safe-pure _ (λ t p. (refl, p)))
  to_processing-Safe _ = Safe-pure _ (λ t p. (refl, p))

  store_memory-Safe :
      (request : AddMemoryRequest) (ps : List (Part F)) (s : OperationState)
      → (s ≡ processing) ⊎ (s ≡ indexed)
      → Safe (At o s) (store_memory env floats o request ps) (λ _. At o committed)
  unfolding store_memory
  store_memory-Safe request ps s either = elim (Bool-cases (any (λ p. not (is_finished p)) ps)) [
    | inl e ↦ rw e (Safe-raise _)
    | inr e ↦ rw e (
        Safe-bind {Q = λ _. At o s} _ _ (Safe-lift _ (λ a t x h. h)) λ aggregate.
          Safe-bind {Q = λ _. At o s} _ _ (Safe-lift _ (λ a t x h. h)) λ count.
            Safe-bind {Q = λ _. At o s} _ _ (Safe-call _ (λ a t h. h))
              λ stored. finish_operation-Safe env keys o stored s either)
  ]

  planned_or_stored-Safe :
      (request : AddMemoryRequest) (ps : List (Part F)) (s : OperationState)
      → Safe (At o s) (planned_or_stored env floats o request ps) (λ _. At o s)
  unfolding planned_or_stored
  planned_or_stored-Safe request ps s = elim (Bool-cases (is_empty ps)) [
    | inl e ↦
        rw e (plan_parts-Safe env floats (At o s) (At-kept o s) o.operation_id request.content)
    | inr e ↦ rw e (Safe-pure _ (λ t h. h))
  ]

  embed_and_store-Safe :
      (request : AddMemoryRequest) (ps : List (Part F)) (s : OperationState)
      → (s ≡ processing) ⊎ (s ≡ indexed)
      → Safe (At o s) (embed_and_store env floats o request ps s) (λ _. At o committed)
  unfolding embed_and_store
  embed_and_store-Safe request ps s either =
      Safe-bind _ _
        (embed_when_processing-Safe env floats (At o s) (At-kept o s) o.operation_id ps s)
        λ _.
          Safe-bind _ _ (operation_parts-Safe (At o s) (At-kept o s) o.operation_id)
            λ indexed_parts. store_memory-Safe request indexed_parts s either

  -- Work that begins in a state from which it can be started ends with the operation committed.
  pub process_add_memory-Safe :
      (s : OperationState)
      → (started s ≡ processing) ⊎ (started s ≡ indexed)
      → Safe (At o s) (process_add_memory env floats o s) (λ _. At o committed)
  unfolding process_add_memory
  process_add_memory-Safe s either =
      Safe-bind {Q = λ _. At o s} _ _ (Safe-lift _ (λ a t e h. h)) λ request.
        Safe-bind {Q = λ _. At o s} _ _ (Safe-call _ (λ a t h. h)) λ _.
          Safe-bind _ _ (operation_parts-Safe (At o s) (At-kept o s) o.operation_id) λ stored.
            Safe-bind _ _ (planned_or_stored-Safe request stored s) λ parts.
              Safe-bind {Q = λ _. At o s} _ _ (Safe-lift _ (λ a t e h. h)) λ _.
                Safe-bind _ _ (to_planned-Safe parts s) λ s'.
                  Safe-given (s' ≡ scheduled s) _ (λ t p. p.0)
                    λ e. rw e (
                      Safe-bind _ _
                        (Safe-strengthen (At o (scheduled s)) _ (λ t _ p. p.1)
                          (to_processing-Safe (scheduled s)))
                        λ s''.
                          Safe-given (s'' ≡ started s) _ (λ t p. p.0)
                            λ e'. rw e' (
                              Safe-strengthen (At o (started s)) _ (λ t _ p. p.1)
                                (embed_and_store-Safe request parts (started s) either)))
