-- ===== src/Ledger/Advance.antt =====
-- The ledger's invariant over one transition.
use surreal_memory_server.Common.{
  ◌+◌, String, ◌≡◌, refl, subst, true, false, some, [], ◌∷◌, arith, ◌==◌, eq_iff, if◌then◌else◌,
  Bool-cases, inl, inr, All,
}
use surreal_memory_server.Ledger.State.{is_terminal}
use surreal_memory_server.Ledger.Types.{Operation, Tables}
use surreal_memory_server.Ledger.Queries.{find}
use surreal_memory_server.Ledger.Transition.{Change, set_state, event_of}
use surreal_memory_server.Ledger.Lifecycle.{is_ready, may_follow}
use surreal_memory_server.Ledger.Commit.{after, after-Journal, find-after}
use surreal_memory_server.Ledger.Sound.{
  Sound, Later, Grows, Later-refl, IsCommitted, All-IsCommitted-Grows,
}

module _ {V F : Type 0} (record_key : String → String)
    (keys : (a b : String) → record_key a ≡ record_key b → a ≡ b) (id : String) (row : Operation V)
    (c : Change V) (t : Tables V F) (found : find id t.operations ≡ some row) where
  abbrev next_row : Operation V
  next_row = set_state c (row.progress_seq + 1) row

  find-next :
      (k : String)
      → find k (after id row c t).operations
        ≡ (if id == k then some next_row else find k t.operations)
  find-next k = find-after id k row c t found

  next_row-Later : is_terminal row.state ≡ false → Later row next_row
  unfolding set_state
  next_row-Later live = record {
    operation_id = refl;
    kind = refl;
    dependencies = refl;
    payload_hash = refl;
    payload = refl;
    sequence = omega arith;
    final = λ h. cc;
  }

  pub after-Grows : is_terminal row.state ≡ false → Grows t (after id row c t)
  after-Grows live = record {
    rows = λ k o here. elim (Bool-cases (id == k)) [
      | inl e ↦
          let p : id ≡ k = (eq_iff id k).0 e in
          let same : row ≡ o = cc in rw (find-next k, e) (rw (← same) (next_row-Later live))
      | inr n ↦ rw (find-next k, n, here) (Later-refl o)
    ];
    events = (event_of id row c ∷ [], refl);
  }

  pub after-Sound :
      Sound t
      → may_follow row.state c.to ≡ true
      → is_terminal row.state ≡ false
      → (is_ready c.to ≡ true → All (IsCommitted t) row.dependencies)
      → Sound (after id row c t)
  unfolding set_state
  after-Sound s edge live ready = record {
    journal = after-Journal record_key keys id row c t s.journal found edge;
    ready = λ k o here readied.
        All-IsCommitted-Grows t (after id row c t) o.dependencies (after-Grows live)
          (elim (Bool-cases (id == k)) [
            | inl e ↦
                let shown : some next_row ≡ some o = rw (find-next k, e) at here in
                let same : next_row ≡ o = cc in
                subst (λ x. is_ready x.state ≡ true → All (IsCommitted t) x.dependencies) same ready
                  readied
            | inr n ↦ s.ready k o (rw (find-next k, n) at here) readied
          ]);
  }
