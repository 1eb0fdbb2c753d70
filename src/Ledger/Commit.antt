-- ===== src/Ledger/Commit.antt =====
-- What one transition does to the tables and to the journal.
use surreal_memory_server.Common.{
  ◌+◌, ◌<◌, String, ◌≡◌, refl, true, false, none, some, ◌∷◌, arith, ◌==◌, eq_iff, if◌then◌else◌,
  Bool-cases, inl, inr, subst,
}
use surreal_memory_server.Ledger.Types.{Operation, Tables}
use surreal_memory_server.Ledger.Queries.{find, update, events_of}
use surreal_memory_server.Ledger.Transition.{Change, set_state, event_of, apply_transition}
use surreal_memory_server.Ledger.Lifecycle.{may_follow}
use surreal_memory_server.Ledger.Journal.{
  History, Journal, state_of, sequence_of, has_sequence, History-fresh, History-taken, find-update,
  has_event-events_of,
}

module _ {V F : Type 0} where
  -- The tables after a transition.
  abbrev pub after : String → Operation V → Change V → Tables V F → Tables V F
  after id current c t = record t {
    operations = update id (set_state c (current.progress_seq + 1)) t.operations;
    events = event_of id current c ∷ t.events;
  }

  pub find-after :
      (id k : String) (row : Operation V) (c : Change V) (t : Tables V F)
      → find id t.operations ≡ some row
      → find k (after id row c t).operations
        ≡ (if id == k then some (set_state c (row.progress_seq + 1) row) else find k t.operations)
  unfolding set_state
  find-after id k row c t found = elim (Bool-cases (id == k)) [
    | inl e ↦
        let p : id ≡ k = (eq_iff id k).0 e in
        rw (
          find-update id k (set_state c (row.progress_seq + 1)) t.operations (λ o. refl),
          e,
          ← p,
          found,
        )
    | inr n ↦ rw (find-update id k (set_state c (row.progress_seq + 1)) t.operations (λ o. refl), n)
  ]

module _ {V F : Type 0} (record_key : String → String)
    (keys : (a b : String) → record_key a ≡ record_key b → a ≡ b) where
  -- A transition computed from a reading of the row that is no longer the latest is aborted by the
  -- database: where the row has gone on to a higher sequence number, the event that the transition
  -- would write is there already. The tables have their journal. Record keys are taken to be
  -- distinct for distinct ids.
  pub stale-transition_aborts :
      (id : String) (current row : Operation V) (c : Change V) (t : Tables V F)
      → Journal t
      → find id t.operations ≡ some row
      → current.progress_seq < row.progress_seq
      → apply_transition record_key id current c t ≡ none
  unfolding apply_transition
  stale-transition_aborts id current row c t j found stale =
      let h = j.history id in
      let taken : has_sequence (current.progress_seq + 1) (events_of id t.events) ≡ true =
        History-taken (events_of id t.events) (state_of (find id t.operations))
          (sequence_of (find id t.operations)) (current.progress_seq + 1) h (omega arith)
          (rw found (omega arith)) in
      rw (has_event-events_of record_key keys id (current.progress_seq + 1) t.events, taken)

  pub fresh-transition_commits :
      (id : String) (row : Operation V) (c : Change V) (t : Tables V F)
      → Journal t
      → find id t.operations ≡ some row
      → apply_transition record_key id row c t ≡ some (after id row c t)
  unfolding apply_transition
  fresh-transition_commits id row c t j found =
      let free : has_sequence (row.progress_seq + 1) (events_of id t.events) ≡ false =
        History-fresh (events_of id t.events) (state_of (find id t.operations))
          (sequence_of (find id t.operations)) (row.progress_seq + 1) (j.history id)
          (rw found (omega arith)) in
      rw (has_event-events_of record_key keys id (row.progress_seq + 1) t.events, free)

  pub after-Journal :
      (id : String) (row : Operation V) (c : Change V) (t : Tables V F)
      → Journal t
      → find id t.operations ≡ some row
      → may_follow row.state c.to ≡ true
      → Journal (after id row c t)
  unfolding events_of event_of set_state
  after-Journal id row c t j found edge = record {
    history = λ k. elim (Bool-cases (id == k)) [
      | inl e ↦
          let p : id ≡ k = (eq_iff id k).0 e in
          let past : History (events_of k t.events) (some row.state) row.progress_seq =
            rw p at (rw found at (j.history id)) in
          rw (find-after id k row c t found, e)
            (
              refl,
              refl,
              omega arith,
              edge,
              subst (History (events_of k t.events) (some row.state)) (omega arith) past,
            )
      | inr n ↦ rw (find-after id k row c t found, n) (j.history k)
    ];
  }
