-- ===== src/Ledger/Served.antt =====
-- The ledger's database calls where the database serves each of them: a read answers, and a
-- transaction takes effect or fails by itself.
use surreal_memory_server.Common.{
  ◌+◌, String, ◌≡◌, refl, false, Option, none, some, List, [], ◌∷◌, ap, ◌∙◌, eq_refl, ◌==◌,
}
use surreal_memory_server.Ledger.State.{is_terminal}
use surreal_memory_server.Ledger.Types.{Operation, Event, Tables, Outcome, World}
use surreal_memory_server.Ledger.Monad.{
  ok, pure, modify, ◌>>=◌, next_outcome, fetch, fetch_answered, write, write_answered,
}
use surreal_memory_server.Ledger.Queries.{to_receipt, find, find_key}
use surreal_memory_server.Ledger.Transition.{
  receipt_of, get, get_db, or_missing, publish, Change, event_of, set_state, apply_transition,
  commit_transition, transition,
}
use surreal_memory_server.Ledger.Journal.{Journal, find_key-find}
use surreal_memory_server.Ledger.Commit.{after, find-after, fresh-transition_commits}

-- `IsServed w`: the database serves every call from `w` on.
abbrev pub IsServed : {V F S : Type 0} → World V F S → Type 0
IsServed w = w.outcomes ≡ []

module _ {V F : Type 0} where
  pub receipt_of-some :
      (id : String) (o : Operation V) (t : Tables V F)
      → find id t.operations ≡ some o
      → receipt_of id t ≡ some (to_receipt o)
  unfolding receipt_of
  receipt_of-some id o t h = rw (receipt_of, h) refl

  pub receipt_of-none :
      (id : String) (t : Tables V F) → find id t.operations ≡ none → receipt_of id t ≡ none
  unfolding receipt_of
  receipt_of-none id t h = rw (receipt_of, h) refl

  receipt_of-after :
      (id : String) (o : Operation V) (c : Change V) (t : Tables V F)
      → find id t.operations ≡ some o
      → receipt_of id (after id o c t) ≡ some (to_receipt (set_state c (o.progress_seq + 1) o))
  receipt_of-after id o c t found =
      receipt_of-some id _ (after id o c t) (rw (find-after id id o c t found, eq_refl id) refl)

module _ {V F S : Type 0} where
  fetch_from :
      {A : Type 0} (f : Tables V F → A) (os : List Outcome) (w : World V F S)
      → os ≡ []
      → (let (o, w') = next_outcome os w in fetch_answered (f w'.tables) o w')
        ≡ (ok (f w.tables), w)
  unfolding next_outcome fetch_answered
  fetch_from f [] w h = refl
  fetch_from f (o ∷ os) w h = cc

  pub fetch-served :
      {A : Type 0} (f : Tables V F → A) (w : World V F S)
      → IsServed w
      → fetch f w ≡ (ok (f w.tables), w)
  unfolding fetch
  fetch-served f w h = fetch_from f w.outcomes w h

  pub get-served :
      (id : String) (w : World V F S) → IsServed w → get id w ≡ (ok (receipt_of id w.tables), w)
  unfolding get
  get-served id w h = fetch-served (receipt_of id) w h

  write_from :
      (f : Tables V F → Option (Tables V F)) (t : Tables V F) (os : List Outcome) (w : World V F S)
      → os ≡ []
      → f w.tables ≡ some t
      → (let (o, w') = next_outcome os w in write_answered o (f w'.tables) w')
        ≡ (ok tt, record w { tables = t })
  unfolding next_outcome write_answered
  write_from f t [] w h e = simp e refl
  write_from f t (o ∷ os) w h e = cc

  pub write-served :
      (f : Tables V F → Option (Tables V F)) (t : Tables V F) (w : World V F S)
      → IsServed w
      → f w.tables ≡ some t
      → write f w ≡ (ok tt, record w { tables = t })
  unfolding write
  write-served f t w h e = write_from f t w.outcomes w h e

module _ {V F S : Type 0} (record_key : String → String)
    (keys : (a b : String) → record_key a ≡ record_key b → a ≡ b) where
  pub get_db-served :
      (id : String) (w : World V F S)
      → IsServed w
      → get_db record_key id w ≡ (ok (find id w.tables.operations), w)
  unfolding get_db
  get_db-served id w h =
      fetch-served (λ t. find_key record_key (record_key id) t.operations) w h
      ∙ ap (λ row. (ok row, w)) (find_key-find record_key keys id w.tables.operations)

  -- The world after a transition from the row `o`.
  abbrev pub moved : String → Operation V → Change V → World V F S → World V F S
  moved id o c w = record w {
    tables = after id o c w.tables;
    published = event_of id o c ∷ w.published;
  }

  pub transition-served :
      (id : String) (o : Operation V) (c : Change V) (w : World V F S)
      → IsServed w
      → Journal w.tables
      → find id w.tables.operations ≡ some o
      → is_terminal o.state ≡ false
      → transition record_key id c w
        ≡ (ok (to_receipt (set_state c (o.progress_seq + 1) o)), moved id o c w)
  unfolding transition commit_transition or_missing ◌>>=◌ pure publish modify
  transition-served id o c w h j found live =
      simp
        (
          get_db-served id w h,
          found,
          live,
          write-served (apply_transition record_key id o c) (after id o c w.tables) w h
              (fresh-transition_commits record_key keys id o c w.tables j found),
          get-served id (moved id o c w) h,
          receipt_of-after id o c w.tables found,
        )
        refl

  -- A transition of an operation that is not terminal sets the row's state, blockers, result and
  -- error to those of the change and its sequence number to the next, and nothing else of it; the
  -- answer is the receipt of that row. It writes and publishes one event, with that number, from the
  -- old state to the new one, with the detail of the change and the row's generation. All other rows
  -- are as before. The database serves the calls, the tables have their journal, and record keys are
  -- distinct for distinct ids.
  pub transition-sets :
      (id other : String) (o : Operation V) (c : Change V) (w : World V F S)
      → IsServed w
      → Journal w.tables
      → find id w.tables.operations ≡ some o
      → is_terminal o.state ≡ false
      → (id == other) ≡ false
      → (let row : Operation V = record o {
        state = c.to;
        blocked_by = c.blocked_by;
        result = c.result;
        error = c.error;
        progress_seq = o.progress_seq + 1;
      } in
          let event : Event = record {
            operation_id = id;
            sequence = o.progress_seq + 1;
            from_state = some o.state;
            to_state = c.to;
            detail = c.detail;
            executor_generation = o.executor_generation;
          } in
          let w' = (transition record_key id c w).1 in
          ((transition record_key id c w).0 ≡ ok (to_receipt row))
          × (find id w'.tables.operations ≡ some row)
          × (find other w'.tables.operations ≡ find other w.tables.operations)
          × (w' ≡ record w {
            tables = record w.tables {
              operations = w'.tables.operations;
              events = event ∷ w.tables.events;
            };
            published = event ∷ w.published;
          }))
  unfolding set_state event_of
  transition-sets id other o c w h j found live apart =
      let run = transition-served id o c w h j found live in
      rw run (
        refl,
        find-after id id o c w.tables found ∙ rw (eq_refl id) refl,
        find-after id other o c w.tables found ∙ rw apart refl,
        refl,
      )
