-- ===== src/Ledger/Submit/Replies.antt =====
-- What `submit` answers and changes, branch by branch, when the database serves every call; and
-- submissions that are repeated.
use surreal_memory_server.Common.{
  String, ◌≡◌, refl, Bool, true, false, Option, none, some, [], ◌∷◌, ◌==◌, ◌&&◌, not, eq_refl,
  Bool-cases, inl, inr, if◌then◌else◌, arith, ap, sym, subst, ◌∙◌,
}
use surreal_memory_server.Ledger.State.{accepted, is_terminal}
use surreal_memory_server.Ledger.Types.{
  OperationRequest, Operation, Receipt, Event, durably_accepted, Tables, World,
}
use surreal_memory_server.Ledger.Monad.{Result, ok, err, pure, modify, attempt, ◌>>=◌}
use surreal_memory_server.Ledger.Queries.{to_receipt, find, has_event, events_of}
use surreal_memory_server.Ledger.Transition.{receipt_of, or_missing, publish, wake}
use surreal_memory_server.Ledger.Journal.{
  Journal, find_key-find, has_event-events_of, History-fresh,
}
use surreal_memory_server.Ledger.Served.{
  IsServed, receipt_of-some, receipt_of-none, get-served, write-served,
}
use surreal_memory_server.Ledger.Request.{Invalid, validate}
use surreal_memory_server.Ledger.Safe.{Ends}
use surreal_memory_server.Ledger.Sound.{Sound}
use surreal_memory_server.Ledger.Submit.{
  Submission, receipt, invalid, conflict, new_operation, accepted_event, create_operation, replay,
  after_create, known_or_new, submit_checked, submit,
}
use surreal_memory_server.Ledger.Submit.Sound.{Answers, submit-Safe}

module _ {V F S : Type 0} (record_key : String → String) (payload_hash : V → Option String)
    (r : OperationRequest V) (w : World V F S) where
  -- The first check that a request fails is the answer, and nothing else happens.
  pub submit-invalid :
      (i : Invalid)
      → validate payload_hash r ≡ some i
      → submit record_key payload_hash r w ≡ (ok (invalid i), w)
  unfolding submit submit_checked pure
  submit-invalid i h = rw h refl

  -- The answer for an id that has the row `o`.
  abbrev pub reply : Operation V → Submission V
  reply o =
      if o.payload_hash == r.payload_hash
      then receipt (to_receipt o) false
      else conflict (to_receipt o)

  -- Whether the coordinator is woken for it.
  abbrev pub wakes_again : Operation V → Bool
  wakes_again o = (o.payload_hash == r.payload_hash) && not (is_terminal o.state)

  -- A valid request for an id that is in the ledger changes no table, when the database serves the
  -- calls. With the hash of the row the answer is its receipt, not created, with another hash a
  -- conflict; the coordinator is woken just where the hash is that of the row and the row is not
  -- terminal.
  pub submit-known :
      (o : Operation V)
      → IsServed w
      → validate payload_hash r ≡ none
      → find r.operation_id w.tables.operations ≡ some o
      → submit record_key payload_hash r w
        ≡ (ok (reply o), if wakes_again o then record w { wakes = o.operation_id ∷ w.wakes } else w)
  unfolding submit submit_checked known_or_new replay pure ◌>>=◌ wake modify to_receipt
  submit-known o served h found =
      simp (h, get-served r.operation_id w served, receipt_of-some r.operation_id o w.tables found)
        (elim (Bool-cases (o.payload_hash == r.payload_hash)) [
          | inl e ↦ elim (Bool-cases (is_terminal o.state)) [
            | inl t ↦ simp (e, t) refl
            | inr t ↦ simp (e, t) refl
          ]
          | inr e ↦ simp e refl
        ])

  abbrev accepted_tables : Tables V F
  accepted_tables = record w.tables {
    operations = new_operation r ∷ w.tables.operations;
    events = accepted_event r ∷ w.tables.events;
  }

  -- The world after a submission that is accepted.
  abbrev pub accepted_world : World V F S
  accepted_world = record w {
    tables = accepted_tables;
    published = accepted_event r ∷ w.published;
    wakes = r.operation_id ∷ w.wakes;
  }

  created-found :
      find r.operation_id (new_operation r ∷ w.tables.operations) ≡ some (new_operation r)
  unfolding find new_operation
  created-found = rw (eq_refl r.operation_id) refl

  -- The same with the row and the event of the code.
  pub submit-adds :
      ((a b : String) → record_key a ≡ record_key b → a ≡ b)
      → IsServed w
      → Journal w.tables
      → validate payload_hash r ≡ none
      → find r.operation_id w.tables.operations ≡ none
      → submit record_key payload_hash r w
        ≡ (ok (receipt (to_receipt (new_operation r)) true), accepted_world)
  unfolding submit submit_checked known_or_new after_create create_operation attempt or_missing
      publish wake pure ◌>>=◌ modify to_receipt new_operation
  submit-adds keys served j h absent =
      let no_event : has_event record_key (record_key r.operation_id) 1 w.tables.events ≡ false =
        has_event-events_of record_key keys r.operation_id 1 w.tables.events
        ∙ History-fresh (events_of r.operation_id w.tables.events) none 0 1
            (rw absent at (j.history r.operation_id)) (omega arith) in
      let stored : create_operation record_key r w.tables ≡ some accepted_tables =
        simp (find_key-find record_key keys r.operation_id w.tables.operations, absent, no_event)
          refl in
      simp
        (
          h,
          get-served r.operation_id w served,
          receipt_of-none r.operation_id w.tables absent,
          write-served (create_operation record_key r) _ w served stored,
          get-served r.operation_id
              (record w {
                tables = record w.tables {
                  operations = new_operation r ∷ w.tables.operations;
                  events = accepted_event r ∷ w.tables.events;
                };
              })
              served,
          receipt_of-some r.operation_id (new_operation r) accepted_tables created-found,
        )
        refl

  -- The row of a new operation, field by field.
  abbrev pub first_row : Operation V
  first_row = record {
    operation_id = r.operation_id;
    schema_version = r.schema_version;
    kind = r.kind;
    dependencies = r.dependencies;
    payload_hash = r.payload_hash;
    payload = r.payload;
    state = accepted;
    blocked_by = [];
    result = none;
    error = none;
    executor_generation = 0;
    executor_progress_seq = 0;
    executor_exit_count = 0;
    executor_last_exit = none;
    executor_error = none;
    progress_seq = 1;
  }

  abbrev pub first_receipt : Receipt V
  first_receipt = record {
    operation_id = r.operation_id;
    schema_version = r.schema_version;
    kind = r.kind;
    payload_hash = r.payload_hash;
    dependencies = r.dependencies;
    state = accepted;
    blocked_by = [];
    result = none;
    error = none;
    executor_generation = 0;
    executor_progress_seq = 0;
    executor_exit_count = 0;
    executor_last_exit = none;
    executor_error = none;
    progress_seq = 1;
  }

  abbrev pub first_event : Event
  first_event = record {
    operation_id = r.operation_id;
    sequence = 1;
    from_state = none;
    to_state = accepted;
    detail = some durably_accepted;
    executor_generation = 0;
  }

  -- A valid request for an id that is not in the ledger adds one row, with what was submitted, in the
  -- state `accepted`, with sequence number 1, and with no blockers, result, error or executor; and
  -- its first event, with sequence number 1 and the detail of an acceptance, which it publishes. It
  -- wakes the coordinator, and changes nothing else. The answer is the receipt of the row, created.
  -- The database serves the calls, the tables have their journal, and record keys are distinct for
  -- distinct ids.
  pub submit-new :
      ((a b : String) → record_key a ≡ record_key b → a ≡ b)
      → IsServed w
      → Journal w.tables
      → validate payload_hash r ≡ none
      → find r.operation_id w.tables.operations ≡ none
      → submit record_key payload_hash r w ≡ (
        ok (receipt first_receipt true),
        record w {
          tables = record w.tables {
            operations = first_row ∷ w.tables.operations;
            events = first_event ∷ w.tables.events;
          };
          published = first_event ∷ w.published;
          wakes = r.operation_id ∷ w.wakes;
        },
      )
  unfolding new_operation accepted_event to_receipt
  submit-new keys served j h absent = submit-adds keys served j h absent

module _ {V F S : Type 0} (record_key : String → String) (payload_hash : V → Option String)
    (r : OperationRequest V) where
  -- What an answer says of the tables, if there is one.
  abbrev pub Truthful : Result (Submission V) × World V F S → Type 0
  Truthful (ok a, u) = Answers payload_hash r a u.tables
  Truthful (err e, u) = Unit

  truth-of :
      (t : Tables V F) (end : Result (Submission V) × World V F S)
      → Ends (Answers payload_hash r) t end
      → Truthful end
  truth-of t (ok a, u) h = h.2
  truth-of t (err e, u) h = tt

  -- However the database answers, an answer of `submit` on a sound ledger is true of the tables it
  -- leaves: the receipt that it returns is that of the row, with the hash of the request, and the
  -- receipt of a conflict is that of the row, with another hash.
  pub submit-Truthful :
      (w : World V F S) → Sound w.tables → Truthful (submit record_key payload_hash r w)
  submit-Truthful w s =
      truth-of w.tables (submit record_key payload_hash r w)
        ((submit-Safe record_key payload_hash r).at w s tt)

  -- A receipt is not the answer to an invalid request.
  was-valid :
      (w u : World V F S) (x : Receipt V) (fresh : Bool)
      → submit record_key payload_hash r w ≡ (ok (receipt x fresh), u)
      → validate payload_hash r ≡ none
  was-valid w u x fresh done = go (validate payload_hash r) refl
    where
      go : (v : Option Invalid) → validate payload_hash r ≡ v → v ≡ none
      go none e = refl
      go (some i) e =
          let refused = submit-invalid record_key payload_hash r w i e in
          let clash : ok (invalid i) ≡ ok (receipt x fresh) = ap (λ p. p.0) (sym refused ∙ done) in
          cc (clash)

  -- A submission that was answered with a receipt, whatever the database did meanwhile, may be
  -- repeated: if the database then serves the calls, the answer is the same receipt, not created,
  -- and no table changes. The ledger is sound before the first one.
  pub submit-repeats :
      (w u : World V F S) (x : Receipt V) (fresh : Bool)
      → Sound w.tables
      → submit record_key payload_hash r w ≡ (ok (receipt x fresh), u)
      → IsServed u
      → ((submit record_key payload_hash r u).0 ≡ ok (receipt x false))
        × ((submit record_key payload_hash r u).1.tables ≡ u.tables)
  unfolding to_receipt
  submit-repeats w u x fresh s done served =
      let truth = subst Truthful done (submit-Truthful w s) in
      go (find r.operation_id u.tables.operations) refl truth.0 truth.1
    where
      unchanged :
          (o : Operation V) (b : Bool)
          → (if b then record u { wakes = o.operation_id ∷ u.wakes } else u).tables ≡ u.tables
      unchanged o true = refl
      unchanged o false = refl

      go :
          (row : Option (Operation V))
          → find r.operation_id u.tables.operations ≡ row
          → receipt_of r.operation_id u.tables ≡ some x
          → (x.payload_hash == r.payload_hash) ≡ true
          → ((submit record_key payload_hash r u).0 ≡ ok (receipt x false))
            × ((submit record_key payload_hash r u).1.tables ≡ u.tables)
      go none e shown hash =
          let clash = sym (receipt_of-none r.operation_id u.tables e) ∙ shown in cc (clash)
      go (some o) e shown hash =
          let same : some (to_receipt o) ≡ some x =
            sym (receipt_of-some r.operation_id o u.tables e) ∙ shown in
          let is_x : to_receipt o ≡ x = cc (same) in
          let hash' : (o.payload_hash == r.payload_hash) ≡ true =
            subst (λ y. (y.payload_hash == r.payload_hash) ≡ true) (sym is_x) hash in
          let known =
            submit-known record_key payload_hash r u o served (was-valid w u x fresh done) e in
          let again : ok (reply record_key payload_hash r u o) ≡ ok (receipt x false) =
            rw (hash', is_x) refl in
          (rw known again, rw known (unchanged o (wakes_again record_key payload_hash r u o)))
