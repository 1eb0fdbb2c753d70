-- ===== src/Ledger/Journal.antt =====
-- The journal: the events of an operation are its history, numbered from 1 without a gap, and the
-- row shows the last of them.
use surreal_memory_server.Common.{
  ℕ, ◌-◌, ◌≤◌, ◌<◌, String, ◌≡◌, refl, Bool, true, false, Option, none, some, List, [], ◌∷◌, arith,
  ◌==◌, eq_iff, eqb, any, if◌then◌else◌, Bool-cases, inl, inr,
}
use surreal_memory_server.Ledger.State.{OperationState}
use surreal_memory_server.Ledger.Types.{Operation, Event, Tables}
use surreal_memory_server.Ledger.Queries.{find, update, find_key, has_event, events_of}
use surreal_memory_server.Ledger.Lifecycle.{follows}

-- `History es s n`: the events `es`, newest first, lead to state `s` at sequence number `n`.
abbrev pub History : List Event → Option OperationState → ℕ → Type 0
History [] s n = (s ≡ none) × (n ≡ 0)
History (e ∷ es) s n =
    (s ≡ some e.to_state)
    × (n ≡ e.sequence)
    × (0 < n)
    × (follows e.from_state e.to_state ≡ true)
    × History es e.from_state (n - 1)

abbrev pub has_sequence : ℕ → List Event → Bool
has_sequence k = any (λ e. eqb e.sequence k)

module _ {V : Type 0} where
  abbrev pub state_of : Option (Operation V) → Option OperationState
  state_of none = none
  state_of (some o) = some o.state

  abbrev pub sequence_of : Option (Operation V) → ℕ
  sequence_of none = 0
  sequence_of (some o) = o.progress_seq

pub record Journal {V F : Type 0} (t : Tables V F) : Type 0 where
  pub history :
      (id : String)
      → History
          (events_of id t.events)
          (state_of (find id t.operations))
          (sequence_of (find id t.operations))

pub History-fresh :
    (es : List Event) (s : Option OperationState) (n k : ℕ)
    → History es s n
    → n < k
    → has_sequence k es ≡ false
History-fresh [] s n k h l = refl
History-fresh (e ∷ es) s n k h l = ground (arith, h, History-fresh es e.from_state (n - 1) k h.4)

pub History-taken :
    (es : List Event) (s : Option OperationState) (n k : ℕ)
    → History es s n
    → 0 < k
    → k ≤ n
    → has_sequence k es ≡ true
History-taken [] s n k h p l = absurd (omega arith)
History-taken (e ∷ es) s n k h p l = ground (arith, h, History-taken es e.from_state (n - 1) k h.4)

module _ {V : Type 0} where
  pub find-update :
      (id j : String) (f : Operation V → Operation V) (os : List (Operation V))
      → ((o : Operation V) → (f o).operation_id ≡ o.operation_id)
      → find j (update id f os)
        ≡ (if id == j then elim (find j os) [ none ↦ none | some o ↦ some (f o) ] else find j os)
  unfolding find update
  find-update id j f [] keep = ground arith
  find-update id j f (o ∷ os) keep = ground (
    arith,
    find-update id j f os keep,
    keep o,
    eq_iff o.operation_id id,
    eq_iff o.operation_id j,
    eq_iff id j,
  )

-- SHA-256 is taken to give distinct operation ids distinct record keys.
module _ (record_key : String → String)
    (keys : (a b : String) → record_key a ≡ record_key b → a ≡ b) where
  key-eq : (a b : String) → (record_key a == record_key b) ≡ (a == b)
  key-eq a b = elim (Bool-cases (a == b)) [
    | inl e ↦ rw e ((eq_iff _ _).1 (let p : a ≡ b = (eq_iff a b).0 e in rw p))
    | inr n ↦ elim (Bool-cases (record_key a == record_key b)) [
      | inl e ↦ absurd (ground (arith, n, eq_iff a b, keys a b ((eq_iff _ _).0 e)))
      | inr m ↦ rw (m, n)
    ]
  ]

  pub find_key-find :
      {V : Type 0} (id : String) (os : List (Operation V))
      → find_key record_key (record_key id) os ≡ find id os
  unfolding find_key find
  find_key-find id [] = refl
  find_key-find id (o ∷ os) = rw (key-eq o.operation_id id, find_key-find id os)

  pub has_event-events_of :
      (id : String) (k : ℕ) (es : List Event)
      → has_event record_key (record_key id) k es ≡ has_sequence k (events_of id es)
  unfolding has_event events_of
  has_event-events_of id k [] = refl
  has_event-events_of id k (e ∷ es) =
      rw (key-eq e.operation_id id) (ground (arith, has_event-events_of id k es))
