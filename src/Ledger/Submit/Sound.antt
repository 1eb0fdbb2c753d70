-- ===== src/Ledger/Submit/Sound.antt =====
-- `submit` under every answer of the database.
use surreal_memory_server.Common.{
  String, ◌≡◌, refl, subst, ◌∙◌, true, false, Option, none, some, List, [], ◌∷◌, arith, ◌==◌,
  eq_refl, eq_iff, Bool-cases, inl, inr,
}
use surreal_memory_server.Ledger.State.{is_terminal}
use surreal_memory_server.Ledger.Types.{OperationRequest, Operation, Receipt, Event, Tables, Error}
use surreal_memory_server.Ledger.Monad.{Result, ok, err}
use surreal_memory_server.Ledger.Queries.{to_receipt, find, events_of}
use surreal_memory_server.Ledger.Transition.{receipt_of}
use surreal_memory_server.Ledger.Journal.{History}
use surreal_memory_server.Ledger.Sound.{Sound, Grows, Later-refl, All-IsCommitted-Grows}
use surreal_memory_server.Ledger.Safe.{
  Safe, Anything, Safe-pure, Safe-raise, Safe-write, Safe-attempt, Safe-bind, Safe-strengthen,
}
use surreal_memory_server.Ledger.Guarded.{Safe-get, Safe-or_missing, Safe-publish, Safe-wake}
use surreal_memory_server.Ledger.Request.{Invalid, validate}
use surreal_memory_server.Ledger.Submit.{
  Submission, receipt, invalid, conflict, new_operation, accepted_event, create_operation,
  same_hash, replay, lost_race, after_create, known_or_new, submit_checked, submit,
}

-- An operation that is not in the table has no events.
no_events : (es : List Event) → History es none 0 → es ≡ []
no_events [] h = refl
no_events (e ∷ es) h = cc (h.0)

module _ {V F : Type 0} (r : OperationRequest V) (t : Tables V F)
    (absent : find r.operation_id t.operations ≡ none) where
  abbrev created : Tables V F
  created = record t {
    operations = new_operation r ∷ t.operations;
    events = accepted_event r ∷ t.events;
  }

  created-Grows : Grows t created
  unfolding find new_operation
  created-Grows = record {
    rows = λ k o here. elim (Bool-cases (r.operation_id == k)) [
      | inl e ↦ let p : r.operation_id ≡ k = (eq_iff r.operation_id k).0 e in absurd (cc)
      | inr n ↦ rw (n, here) (Later-refl o)
    ];
    events = (accepted_event r ∷ [], refl);
  }

  created-Sound : Sound t → Sound created
  unfolding find new_operation accepted_event events_of
  created-Sound s = record {
    journal = record {
      history = λ k. elim (Bool-cases (r.operation_id == k)) [
        | inl e ↦
            let p : r.operation_id ≡ k = (eq_iff r.operation_id k).0 e in
            rw e (
              refl,
              refl,
              omega arith,
              refl,
              subst (λ j. History (events_of j t.events) none 0) p
                  (rw absent at (s.journal.history r.operation_id)),
            )
        | inr n ↦ rw n (s.journal.history k)
      ];
    };
    ready = λ k o here readied.
        All-IsCommitted-Grows t created o.dependencies created-Grows
          (elim (Bool-cases (r.operation_id == k)) [
            | inl e ↦ let shown : some (new_operation r) ≡ some o = rw e at here in absurd (cc)
            | inr n ↦ s.ready k o (rw n at here) readied
          ]);
  }

module _ {V F : Type 0} (record_key : String → String) where
  -- A transaction of `submit` that commits found the id free.
  create-commits :
      (r : OperationRequest V) (t u : Tables V F)
      → create_operation record_key r t ≡ some u
      → (absent : find r.operation_id t.operations ≡ none) × (created r t absent ≡ u)
  unfolding create_operation
  create-commits r t u e = go (find r.operation_id t.operations) refl e
    where
      go :
          (row : Option (Operation V))
          → find r.operation_id t.operations ≡ row
          → create_operation record_key r t ≡ some u
          → (absent : find r.operation_id t.operations ≡ none) × (created r t absent ≡ u)
      go none q e = (q, ground arith)
      go (some o) q e = absurd (ground arith)

-- What an answer of `submit` says of the ledger as it is then: a receipt is the row of this very
-- payload, and a conflict is the row of another one.
module _ {V F : Type 0} (payload_hash : V → Option String) (r : OperationRequest V) where
  abbrev pub Answers : Submission V → Tables V F → Type 0
  Answers (receipt x fresh) t =
      (receipt_of r.operation_id t ≡ some x) × ((x.payload_hash == r.payload_hash) ≡ true)
  Answers (conflict x) t =
      (receipt_of r.operation_id t ≡ some x) × ((x.payload_hash == r.payload_hash) ≡ false)
  Answers (invalid i) t = validate payload_hash r ≡ some i

module _ {V F : Type 0} (r : OperationRequest V) where
  abbrev Created : Tables V F → Type 0
  Created t = find r.operation_id t.operations ≡ some (new_operation r)

  Created-receipt :
      (t : Tables V F) (x : Receipt V)
      → Created t
      → receipt_of r.operation_id t ≡ some x
      → (x.payload_hash == r.payload_hash) ≡ true
  unfolding receipt_of to_receipt new_operation
  Created-receipt t x made shown =
      let e : some (to_receipt (new_operation r)) ≡ some x = rw (made, receipt_of) at shown in
      let same : x.payload_hash ≡ r.payload_hash = cc in rw same (eq_refl r.payload_hash)

module _ {V F S : Type 0} (record_key : String → String) (payload_hash : V → Option String)
    (r : OperationRequest V) where
  same_hash-Safe :
      (x : Receipt V)
      → Safe {S = S}
          (λ t. receipt_of r.operation_id t ≡ some x)
          (same_hash record_key payload_hash r x)
          (Answers {F = F} payload_hash r)
  unfolding same_hash
  same_hash-Safe x = elim (Bool-cases (x.payload_hash == r.payload_hash)) [
    | inl same ↦ rw same (Safe-pure _ (λ t p. (p, same)))
    | inr other ↦ rw other (Safe-pure _ (λ t p. (p, other)))
  ]

  lost_race-Safe :
      (e : Error) (x : Option (Receipt V))
      → Safe {S = S}
          (λ t. receipt_of r.operation_id t ≡ x)
          (lost_race record_key payload_hash r e x)
          (Answers {F = F} payload_hash r)
  unfolding lost_race
  lost_race-Safe e none = Safe-raise e
  lost_race-Safe e (some x) = same_hash-Safe x

  replay-Safe :
      (x : Receipt V)
      → Safe {S = S}
          (λ t. receipt_of r.operation_id t ≡ some x)
          (replay record_key payload_hash r x)
          (Answers {F = F} payload_hash r)
  unfolding replay
  replay-Safe x = elim (Bool-cases (x.payload_hash == r.payload_hash)) [
    | inl same ↦ rw same (elim (Bool-cases (is_terminal x.state)) [
      | inl ended ↦ rw ended (Safe-pure _ (λ t p. (p, same)))
      | inr live ↦ rw live (Safe-bind _ _ (Safe-wake _ _) (λ _. Safe-pure _ (λ t p. (p, same))))
    ])
    | inr other ↦ rw other (Safe-pure _ (λ t p. (p, other)))
  ]

  after_create-Safe :
      (end : Result (Unit {0}))
      → Safe {F = F} {S = S}
          (λ t. elim end [ ok a ↦ Created r t | err e ↦ Unit {0} ])
          (after_create record_key payload_hash r end)
          (Answers payload_hash r)
  unfolding after_create
  after_create-Safe (err e) =
      Safe-bind _ _ (Safe-get _ r.operation_id)
        λ x. Safe-strengthen _ _ (λ t s p. p.0) (lost_race-Safe e x)
  after_create-Safe (ok a) = Safe-bind _ _ (Safe-get _ r.operation_id) λ found.
      Safe-bind _ _ (Safe-or_missing _ found) λ x. Safe-bind _ _ (Safe-publish _ _) λ _.
        Safe-bind _ _ (Safe-wake _ _) λ _.
          Safe-pure _ (λ t p. let shown = p.1.0 ∙ p.0 in (shown, Created-receipt r t x p.1.1 shown))

  known_or_new-Safe :
      (x : Option (Receipt V))
      → Safe {F = F} {S = S}
          (λ t. receipt_of r.operation_id t ≡ x)
          (known_or_new record_key payload_hash r x)
          (Answers payload_hash r)
  unfolding known_or_new find new_operation
  known_or_new-Safe (some x) = replay-Safe x
  known_or_new-Safe none =
      Safe-bind _ _
        (Safe-attempt _ (
          Safe-write {Q = λ _ t. Created r t} _ λ t u s p e.
            let (absent, same) = create-commits record_key r t u e in
            rw (← same)
              (created-Sound r t absent s, created-Grows r t absent, rw (eq_refl r.operation_id))))
        after_create-Safe

  -- `submit` keeps the ledger sound, only adds to it, and its answer tells the truth.
  pub submit-Safe :
      Safe {F = F} {S = S} Anything (submit record_key payload_hash r) (Answers payload_hash r)
  unfolding submit
  submit-Safe = checked (validate payload_hash r) refl
    where
      checked :
          (i : Option Invalid)
          → validate payload_hash r ≡ i
          → Safe {F = F} {S = S} Anything
              (submit_checked record_key payload_hash r i)
              (Answers payload_hash r)
      checked (some i) e = Safe-pure _ (λ t p. e)
      checked none e =
          Safe-bind _ _ (Safe-get _ r.operation_id)
            λ x. Safe-strengthen _ _ (λ t s p. p.0) (known_or_new-Safe x)
