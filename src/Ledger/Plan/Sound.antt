-- ===== src/Ledger/Plan/Sound.antt =====
-- The journal, the states and the dependencies under the writes to parts and executor snapshots.
use surreal_memory_server.Common.{
  ℕ, String, ◌≡◌, refl, ◌∙◌, subst, true, Option, none, some, List, [], ◌∷◌, map, ◌==◌,
  if◌then◌else◌, Bool-cases, inl, inr, All, arith,
}
use surreal_memory_server.Ledger.Types.{Operation, Part, PlanPart, Tables}
use surreal_memory_server.Ledger.Queries.{find, update}
use surreal_memory_server.Ledger.Lifecycle.{is_ready}
use surreal_memory_server.Ledger.Journal.{state_of, sequence_of, find-update}
use surreal_memory_server.Ledger.Sound.{
  Sound, Grows, Later, Later-refl, IsCommitted, All-IsCommitted-Grows,
}
use surreal_memory_server.Ledger.Safe.{
  Safe, Safe-pure, Safe-raise, Safe-gets, Safe-fetch, Safe-write, Safe-bind,
}
use surreal_memory_server.Ledger.Env.{Snapshot, Env}
use surreal_memory_server.Ledger.Plan.{
  set_indexed, set_snapshot, operation_parts, insert_plan, insert_parts, planned_part, persist_rows,
  persist_plan, mark_part_indexed, store_snapshot, persist_executor_snapshot, plan_differs,
}

module _ {V F : Type 0} (t : Tables V F) where
  pub parts-Sound : (ps : List (Part F)) → Sound t → Sound (record t { parts = ps })
  parts-Sound ps s = record { journal = record { history = s.journal.history }; ready = s.ready }

  pub parts-Grows : (ps : List (Part F)) → Grows t (record t { parts = ps })
  parts-Grows ps = record { rows = λ id o e. rw e (Later-refl o); events = ([], refl) }

module _ {V F : Type 0} (id : String) (sn : Snapshot) (t : Tables V F) where
  abbrev snapped : Tables V F
  snapped = record t { operations = update id (set_snapshot sn) t.operations }

  -- A row after the snapshot.
  abbrev shot : String → Operation V → Operation V
  shot k o = if id == k then set_snapshot sn o else o

  find-snapped :
      (k : String)
      → find k (snapped).operations
        ≡ elim (find k t.operations) [ none ↦ none | some o ↦ some (shot k o) ]
  unfolding set_snapshot
  find-snapped k =
      find-update id k (set_snapshot sn) t.operations (λ o. refl) ∙ go (find k t.operations)
    where
      go :
          (row : Option (Operation V))
          → (if id == k then elim row [ none ↦ none | some o ↦ some (set_snapshot sn o) ] else row)
            ≡ elim row [ none ↦ none | some o ↦ some (shot k o) ]
      go none = ground arith
      go (some o) = ground arith

  shot-Later : (k : String) (o : Operation V) → Later o (shot k o)
  unfolding set_snapshot
  shot-Later k o = elim (Bool-cases (id == k)) [
    | inl e ↦ rw e (record {
      operation_id = refl;
      kind = refl;
      dependencies = refl;
      payload_hash = refl;
      payload = refl;
      sequence = omega arith;
      final = λ h. (refl, refl, refl, refl, refl);
    })
    | inr e ↦ rw e (Later-refl o)
  ]

  shot-state : (k : String) (o : Operation V) → (shot k o).state ≡ o.state
  unfolding set_snapshot
  shot-state k o = ground arith

  pub snapped-Grows : Grows t snapped
  snapped-Grows = record {
    rows = λ k o e. rw (find-snapped k, e) (shot-Later k o);
    events = ([], refl);
  }

  pub state-snapped :
      (k : String) → state_of (find k (snapped).operations) ≡ state_of (find k t.operations)
  unfolding set_snapshot
  state-snapped k = rw (find-snapped k) (go (find k t.operations))
    where
      go :
          (row : Option (Operation V))
          → state_of (elim row [ none ↦ none | some o ↦ some (shot k o) ]) ≡ state_of row
      go none = refl
      go (some o) = ground arith

  sequence-snapped :
      (k : String) → sequence_of (find k (snapped).operations) ≡ sequence_of (find k t.operations)
  unfolding set_snapshot
  sequence-snapped k = rw (find-snapped k) (go (find k t.operations))
    where
      go :
          (row : Option (Operation V))
          → sequence_of (elim row [ none ↦ none | some o ↦ some (shot k o) ]) ≡ sequence_of row
      go none = refl
      go (some o) = ground arith

  pub snapped-Sound : Sound t → Sound snapped
  unfolding set_snapshot
  snapped-Sound s = record {
    journal = record {
      history = λ k. rw (state-snapped k, sequence-snapped k) (s.journal.history k);
    };
    ready =
        λ k o here readied. go k (find k t.operations) refl o (rw (find-snapped k) at here) readied;
  }
    where
      go :
          (k : String) (row : Option (Operation V))
          → find k t.operations ≡ row
          → (o : Operation V) → elim row [ none ↦ none | some x ↦ some (shot k x) ] ≡ some o
          → is_ready o.state ≡ true
          → All (IsCommitted snapped) o.dependencies
      go k none e o h readied = absurd (cc)
      go k (some x) e o h readied =
          let same : shot k x ≡ o = cc in
          subst (λ y. is_ready y.state ≡ true → All (IsCommitted snapped) y.dependencies) same
            (λ r. rw (shot-Later k x).dependencies (
              All-IsCommitted-Grows t snapped x.dependencies snapped-Grows
                (s.ready k x e (rw (shot-state k x) at r))))
            readied

-- A fact that the writes of the plan keep.
pub record Kept {V F : Type 0} (P : Tables V F → Type 0) : Type 0 where
  pub parts : (t : Tables V F) (ps : List (Part F)) → P t → P (record t { parts = ps })
  pub snapshot : (id : String) (sn : Snapshot) (t : Tables V F) → P t → P (snapped id sn t)

module _ {V F : Type 0} where
  insert_plan-parts :
      (id : String) (plan : List PlanPart) (t u : Tables V F)
      → insert_plan id plan t ≡ some u
      → (ps : List (Part F)) × (record t { parts = ps } ≡ u)
  unfolding insert_plan
  insert_plan-parts id plan t u e = go (insert_parts (map (planned_part id) plan) t.parts) e
    where
      go :
          (inserted : Option (List (Part F)))
          → elim inserted [ none ↦ none | some ps ↦ some (record t { parts = ps }) ] ≡ some u
          → (ps : List (Part F)) × (record t { parts = ps } ≡ u)
      go none e = absurd (cc)
      go (some ps) e = (ps, cc)

module _ {V F S : Type 0} (P : Tables V F → Type 0) (kept : Kept P) (id : String) where
  pub mark_part_indexed-Safe :
      (k : ℕ) (v : List F) → Safe {S = S} P (mark_part_indexed id k v) (λ _. P)
  unfolding mark_part_indexed
  mark_part_indexed-Safe k v = Safe-write _ λ t u s p e.
      let same : record t { parts = set_indexed id k v t.parts } ≡ u = cc in
      rw (← same) (parts-Sound t _ s, parts-Grows t _, kept.parts t _ p)

  pub operation_parts-Safe : Safe {S = S} P (operation_parts id) (λ _. P)
  unfolding operation_parts
  operation_parts-Safe = Safe-fetch _ (λ t p. p)

  pub persist_plan-Safe : (plan : List PlanPart) → Safe {S = S} P (persist_plan id plan) (λ _. P)
  unfolding persist_plan
  persist_plan-Safe plan = Safe-bind _ _ operation_parts-Safe rows
    where
      rows : (existing : List (Part F)) → Safe {S = S} P (persist_rows id plan existing) (λ _. P)
      rows [] = Safe-write _ λ t u s p e.
          let (ps, same) = insert_plan-parts id plan t u e in
          rw (← same) (parts-Sound t ps s, parts-Grows t ps, kept.parts t ps p)
      rows (x ∷ xs) = elim (Bool-cases (plan_differs (x ∷ xs) plan)) [
        | inl e ↦ rw e (Safe-raise _)
        | inr e ↦ rw e (Safe-pure _ (λ t p. p))
      ]

  pub persist_executor_snapshot-Safe :
      (env : Env V F S) → Safe P (persist_executor_snapshot env id) (λ _. P)
  unfolding persist_executor_snapshot
  persist_executor_snapshot-Safe env = Safe-bind {Q = λ _. P} _ _ (Safe-gets _ (λ w p. p)) stored
    where
      stored : (sn : Option Snapshot) → Safe {S = S} P (store_snapshot id sn) (λ _. P)
      stored none = Safe-pure _ (λ t p. p)
      stored (some sn) = Safe-write _ λ t u s p e.
          let same : snapped id sn t ≡ u = cc in
          rw (← same) (snapped-Sound id sn t s, snapped-Grows id sn t, kept.snapshot id sn t p)
