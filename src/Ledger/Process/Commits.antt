-- ===== src/Ledger/Process/Commits.antt =====
-- `process` where the database and the storage serve it.
use surreal_memory_server.Common.{
  ◌+◌, String, ◌≡◌, refl, ◌∙◌, true, false, Option, none, some, List, [], ◌∷◌, ◌==◌, eq_refl, All,
}
use surreal_memory_server.Common.Sort.{sort, sort_by, dedup}
use surreal_memory_server.Ledger.State.{
  accepted, validated, planned, processing, indexed, committed, is_terminal,
}
use surreal_memory_server.Ledger.Types.{
  Operation, Tables, World, contract_validated, dependency_ordered, outcome_committed,
}
use surreal_memory_server.Ledger.Monad.{ok, pure, ◌>>=◌}
use surreal_memory_server.Ledger.Queries.{to_receipt, find}
use surreal_memory_server.Ledger.Transition.{Change, set_state, receipt_of, or_missing, transition}
use surreal_memory_server.Ledger.Lifecycle.{may_follow}
use surreal_memory_server.Ledger.Journal.{Journal, state_of}
use surreal_memory_server.Ledger.Commit.{find-after, after-Journal}
use surreal_memory_server.Ledger.Served.{
  IsServed, moved, get-served, get_db-served, receipt_of-some, transition-served,
}
use surreal_memory_server.Ledger.Sound.{IsCommitted}
use surreal_memory_server.Ledger.Env.{Env}
use surreal_memory_server.Ledger.Aggregate.{Floats}
use surreal_memory_server.Ledger.Payload.{validate_payload}
use surreal_memory_server.Ledger.Changes.{to, finished, blocks}
use surreal_memory_server.Ledger.Settle.{
  blockers_among, dependency_blockers, commit, finish_from, finish_operation,
}
use surreal_memory_server.Ledger.TaskOperation.{schedule, begin, run_kind, process_task_operation}
use surreal_memory_server.Ledger.Process.{
  execute, validate_then, unblocked, by_blockers, process_row, process,
}

-- The database serves the calls, and `row` is the row of `id` in a ledger with its journal.
record Stands {V F S : Type 0} (id : String) (row : Operation V) (w : World V F S) : Type 0 where
  served : IsServed w
  journal : Journal w.tables
  found : find id w.tables.operations ≡ some row

module _ {V F : Type 0} where
  -- A dependency that is committed does not block.
  not-blocks : (d : String) (t : Tables V F) → IsCommitted t d → blocks (receipt_of d t) ≡ false
  unfolding to_receipt
  not-blocks d t h = by_row (find d t.operations) refl h
    where
      by_row :
          (row : Option (Operation V))
          → find d t.operations ≡ row
          → state_of row ≡ some committed
          → blocks (receipt_of d t) ≡ false
      by_row none e c = cc (c)
      by_row (some o) e c =
          let done : o.state ≡ committed = cc (c) in simp (receipt_of-some d o t e, done) refl

module _ {V F S : Type 0} where
  no_blockers :
      (ds : List String) (w : World V F S)
      → IsServed w
      → All (IsCommitted w.tables) ds
      → blockers_among ds w ≡ (ok [], w)
  unfolding blockers_among ◌>>=◌ pure
  no_blockers [] w s h = refl
  no_blockers (d ∷ ds) w s h =
      simp (get-served d w s, no_blockers ds w s h.1, not-blocks d w.tables h.0) refl

  unblocked_by :
      (ds : List String) (w : World V F S)
      → IsServed w
      → All (IsCommitted w.tables) ds
      → dependency_blockers ds w ≡ (ok [], w)
  unfolding dependency_blockers ◌>>=◌ pure sort sort_by dedup
  unblocked_by ds w s h = simp (no_blockers ds w s h) refl

module _ {V F S : Type 0} (env : Env V F S)
    (keys : (a b : String) → env.record_key a ≡ env.record_key b → a ≡ b) (id : String) where
  abbrev next : Change V → Operation V → Operation V
  next c row = set_state c (row.progress_seq + 1) row

  abbrev world : Change V → Operation V → World V F S → World V F S
  world c row w = moved env.record_key keys id row c w

  -- One transition, and where it leaves the ledger.
  steps :
      (c : Change V) (row : Operation V) (w : World V F S)
      → Stands id row w
      → is_terminal row.state ≡ false
      → may_follow row.state c.to ≡ true
      → (p : transition env.record_key id c w ≡ (ok (to_receipt (next c row)), world c row w))
        × Stands id (next c row) (world c row w)
  steps c row w s live edge = (
    transition-served env.record_key keys id row c w s.served s.journal s.found live,
    record {
      served = s.served;
      journal = after-Journal env.record_key keys id row c w.tables s.journal s.found edge;
      found = find-after id id row c w.tables s.found ∙ rw (eq_refl id) refl;
    },
  )

  -- The last two steps.
  finishes :
      (result : V) (row : Operation V) (w : World V F S)
      → Stands id row w
      → row.state ≡ processing
      → (row' : Operation V) × (w' : World V F S) × (finish_operation env id result w ≡ (ok tt, w'))
        × Stands id row' w'
        × (row'.state ≡ committed)
        × (row'.result ≡ some result)
        × (w'.store ≡ w.store)
  unfolding finish_operation finish_from commit or_missing pure ◌>>=◌ is_terminal set_state
      to_receipt
  finishes result row w s at_work =
      let first = finished indexed result none in
      let last = finished committed result (some outcome_committed) in
      let one = steps first row w s (rw at_work refl) (rw at_work refl) in
      let two = steps last (next first row) (world first row w) one.1 refl refl in
      (
        next last (next first row),
        world last (next first row) (world first row w),
        simp
            (
              get-served id w s.served,
              receipt_of-some id row w.tables s.found,
              at_work,
              one.0,
              two.0,
            )
            refl,
        two.1,
        refl,
        refl,
        refl,
      )

module _ {V F S : Type 0} (env : Env V F S) (floats : Floats F)
    (keys : (a b : String) → env.record_key a ≡ env.record_key b → a ≡ b) (o : Operation V) (v : V)
    (s' : S) where
  abbrev validation : Change V
  validation = to validated (some contract_validated)

  abbrev planning : Change V
  planning = to planned (some dependency_ordered)

  abbrev starting : Change V
  starting = to processing none

  -- The work between `validated` and the end.
  works :
      (row : Operation V) (w : World V F S)
      → Stands o.operation_id row w
      → row.state ≡ validated
      → ((u : World V F S)
          → u.store ≡ w.store
          → run_kind env o.kind o.payload u ≡ (ok v, record u { store = s' }))
      → (row' : Operation V) × (w' : World V F S) × (process_task_operation env o validated w
          ≡ (ok v, w'))
        × Stands o.operation_id row' w'
        × (row'.state ≡ processing)
  unfolding process_task_operation schedule begin pure ◌>>=◌ is_terminal set_state
  works row w s here serves =
      let two = steps env keys o.operation_id planning row w s (rw here refl) (rw here refl) in
      let row2 = next env keys o.operation_id planning row in
      let w2 = world env keys o.operation_id planning row w in
      let three = steps env keys o.operation_id starting row2 w2 two.1 refl refl in
      let row3 = next env keys o.operation_id starting row2 in
      let w3 = world env keys o.operation_id starting row2 w2 in
      (
        row3,
        record w3 { store = s' },
        simp (two.0, three.0, serves w3 refl) refl,
        record { served = s.served; journal = three.1.journal; found = three.1.found },
        refl,
      )

  -- An accepted operation on task streams is committed with the result of the storage by one call
  -- of `process`, if the database serves the calls, its dependencies are committed, its payload is
  -- valid, and the storage answers it with that result. The tables have their journal. Record keys
  -- are taken to be distinct for distinct ids.
  pub process-commits :
      (w : World V F S)
      → IsServed w
      → Journal w.tables
      → find o.operation_id w.tables.operations ≡ some o
      → o.state ≡ accepted
      → All (IsCommitted w.tables) o.dependencies
      → (o.kind == "add_memory") ≡ false
      → validate_payload env o.kind o.payload ≡ none
      → ((u : World V F S)
          → u.store ≡ w.store
          → run_kind env o.kind o.payload u ≡ (ok v, record u { store = s' }))
      → (row : Operation V) × (end : World V F S) × (process env floats o.operation_id w
          ≡ (ok tt, end))
        × (find o.operation_id end.tables.operations ≡ some row)
        × (row.state ≡ committed)
        × (row.result ≡ some v)
  unfolding process process_row by_blockers unblocked validate_then execute pure ◌>>=◌ is_terminal
      set_state
  process-commits w served journal found fresh ready other_kind valid serves =
      let start : Stands o.operation_id o w = record {
        served = served;
        journal = journal;
        found = found;
      } in
      let one =
        steps env keys o.operation_id validation o w start (rw fresh refl) (rw fresh refl) in
      let row1 = next env keys o.operation_id validation o in
      let w1 = world env keys o.operation_id validation o w in
      let work = works row1 w1 one.1 refl serves in
      let done = finishes env keys o.operation_id v work.0 work.1 work.3 work.4 in
      (
        done.0,
        done.1,
        simp
            (
              get_db-served env.record_key keys o.operation_id w served,
              found,
              fresh,
              unblocked_by o.dependencies w served ready,
              valid,
              one.0,
              other_kind,
              work.2,
              done.2,
            )
            refl,
        done.3.found,
        done.4,
        done.5,
      )
