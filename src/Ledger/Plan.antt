-- ===== src/Ledger/Plan.antt =====
-- The persisted embedding plan of an operation: `operation_parts`, `persist_plan`,
-- `mark_part_indexed`, `persist_executor_snapshot` and `validate_stored_plan` of src/operations.rs.
pub mod Contiguous
pub mod Sound
use surreal_memory_server.Common.{
  ℕ, zero, suc, ◌+◌, ◌-◌, String, Bool, true, false, Option, none, some, List, [], ◌∷◌, map, ◌++◌,
  ◌==◌, ◌&&◌, ◌||◌, not, eqb, leb, ltb, any, keep, is_empty, if◌then◌else◌,
}
use surreal_memory_server.Common.Text.{is_blank}
use surreal_memory_server.Common.Sort.{sort_by}
use surreal_memory_server.Ledger.Types.{
  Operation, Part, PartState, PlanPart, Tables, Error, other, World,
}
use surreal_memory_server.Ledger.Monad.{
  Result, ok, err, M, pure, raise, gets, ◌>>=◌, ◌>>◌, fetch, write,
}
use surreal_memory_server.Ledger.Queries.{update}
use surreal_memory_server.Ledger.Env.{Snapshot, Env}

module _ {F : Type 0} where
  -- `… WHERE operation_id = $id ORDER BY part_index ASC`.
  unfoldable pub parts_of : String → List (Part F) → List (Part F)
  parts_of id ps =
      sort_by (λ p q. leb p.part_index q.part_index) (keep (λ p. p.operation_id == id) ps)

  unfoldable pub planned_part : String → PlanPart → Part F
  planned_part id p = record {
    operation_id = id;
    part_index = p.part_index;
    token_start = p.token_start;
    token_end = p.token_end;
    token_count = p.token_count;
    token_hash = p.token_hash;
    content = p.content;
    state = PartState.planned;
    embedding = none;
  }

  -- Whether the record id or the unique index on operation and part index is taken.
  has_part : String → ℕ → List (Part F) → Bool
  has_part id k = any (λ p. p.operation_id == id && eqb p.part_index k)

  -- INSERT: all rows, or none where one of them is there already.
  unfoldable pub insert_parts : List (Part F) → List (Part F) → Option (List (Part F))
  unfolding has_part
  insert_parts [] ps = some ps
  insert_parts (q ∷ qs) ps =
      let rest = insert_parts qs (q ∷ ps) in
      if has_part q.operation_id q.part_index ps then none else rest

  -- UPDATE … SET state = 'indexed', embedding WHERE operation_id AND part_index.
  unfoldable pub set_indexed : String → ℕ → List F → List (Part F) → List (Part F)
  set_indexed id k v [] = []
  set_indexed id k v (p ∷ ps) =
      (if p.operation_id == id && eqb p.part_index k
        then record p { state = PartState.indexed; embedding = some v }
        else p)
      ∷ set_indexed id k v ps

  -- Whether a stored part is another than the planned one.
  unfoldable pub part_differs : Part F → PlanPart → Bool
  part_differs stored expected =
      not (eqb stored.part_index expected.part_index)
      || not (stored.token_hash == expected.token_hash)
      || not (eqb stored.token_start expected.token_start)
      || not (eqb stored.token_end expected.token_end)

  -- Two plans differ in length, or at a place.
  unfoldable pub plan_differs : List (Part F) → List PlanPart → Bool
  unfolding part_differs
  plan_differs [] [] = false
  plan_differs [] (p ∷ ps) = true
  plan_differs (s ∷ ss) [] = true
  plan_differs (s ∷ ss) (p ∷ ps) = part_differs s p || plan_differs ss ps

  -- `validate_stored_plan`: the loop from the index `expected` on.
  unfoldable pub contiguous : ℕ → List (Part F) → Bool
  contiguous expected [] = true
  contiguous expected (p ∷ ps) =
      not (
        not (eqb p.part_index expected)
        || ltb p.token_end p.token_start
        || not (eqb p.token_count (p.token_end - p.token_start))
        || is_blank p.token_hash)
      && contiguous (suc expected) ps

  unfoldable pub validate_stored_plan : List (Part F) → Result (Unit {0})
  unfolding contiguous
  validate_stored_plan parts =
      if is_empty parts
      then err (other "embedding plan is empty")
      else if contiguous 0 parts
      then ok tt
      else err (other "persisted embedding plan is not contiguous and self-consistent")

module _ {V : Type 0} where
  unfoldable pub set_snapshot : Snapshot → Operation V → Operation V
  set_snapshot s o = record o {
    executor_generation = s.generation;
    executor_progress_seq = s.progress_seq;
    executor_exit_count = s.exit_count;
    executor_last_exit = s.last_exit;
    executor_error = s.error;
  }

module _ {V F : Type 0} where
  unfoldable pub insert_plan : String → List PlanPart → Tables V F → Option (Tables V F)
  insert_plan id plan t = elim (insert_parts (map (planned_part id) plan) t.parts) [
    | none ↦ none
    | some ps ↦ some (record t { parts = ps })
  ]

module _ {V F S : Type 0} where
  unfoldable pub operation_parts : String → M (World V F S) (List (Part F))
  operation_parts id = fetch (λ t. parts_of id t.parts)

  unfoldable pub persist_rows : String → List PlanPart → List (Part F) → M (World V F S) (Unit {0})
  persist_rows id plan existing =
      if not (is_empty existing)
      then (if plan_differs existing plan
          then raise (other "deterministic token plan changed for operation")
          else pure tt)
      else write (insert_plan id plan)

  unfoldable pub persist_plan : String → List PlanPart → M (World V F S) (Unit {0})
  unfolding persist_rows
  persist_plan id plan = do existing ← operation_parts id; persist_rows id plan existing

  unfoldable pub mark_part_indexed : String → ℕ → List F → M (World V F S) (Unit {0})
  mark_part_indexed id k v = write (λ t. some (record t { parts = set_indexed id k v t.parts }))

  unfoldable pub store_snapshot : String → Option Snapshot → M (World V F S) (Unit {0})
  store_snapshot id none = pure tt
  store_snapshot id (some s) =
      write (λ t. some (record t { operations = update id (set_snapshot s) t.operations }))

  unfoldable pub persist_executor_snapshot : Env V F S → String → M (World V F S) (Unit {0})
  unfolding store_snapshot
  persist_executor_snapshot env id = do
    s ← gets (λ w. env.executor_snapshot_for_operation id w.store)
    store_snapshot id s
