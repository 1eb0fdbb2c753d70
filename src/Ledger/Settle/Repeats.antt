-- ===== src/Ledger/Settle/Repeats.antt =====
-- Failures that repeat: `record_processing_error` where the database serves it.
use surreal_memory_server.Common.{
  ◌+◌, String, ◌≡◌, refl, ◌∙◌, true, false, Option, none, some, eq_refl, Bool-cases, inl, inr,
}
use surreal_memory_server.Ledger.State.{is_terminal}
use surreal_memory_server.Ledger.Types.{Operation, Error, World}
use surreal_memory_server.Ledger.Monad.{ok, pure, attempt, ◌>>=◌}
use surreal_memory_server.Ledger.Queries.{to_receipt, find}
use surreal_memory_server.Ledger.Transition.{set_state}
use surreal_memory_server.Ledger.Journal.{Journal}
use surreal_memory_server.Ledger.Commit.{find-after}
use surreal_memory_server.Ledger.Served.{
  IsServed, moved, get-served, receipt_of-some, receipt_of-none, transition-served,
}
use surreal_memory_server.Ledger.Env.{Env}
use surreal_memory_server.Ledger.Operator.{bounded_error}
use surreal_memory_server.Ledger.Changes.{pause, same_error}
use surreal_memory_server.Ledger.Settle.{pause_found, record_processing_error}

module _ {V F S : Type 0} (env : Env V F S)
    (keys : (a b : String) → env.record_key a ≡ env.record_key b → a ≡ b) (id : String)
    (e : Error) where
  abbrev message : String
  message = bounded_error (env.render e)

  -- Nothing is recorded of an operation that is not there, is terminal, or shows the failure.
  absent-nothing :
      (w : World V F S)
      → IsServed w
      → find id w.tables.operations ≡ none
      → record_processing_error env id e w ≡ (ok tt, w)
  unfolding record_processing_error pause_found attempt pure ◌>>=◌
  absent-nothing w s h = simp (get-served id w s, receipt_of-none id w.tables h) refl

  shown-nothing :
      (o : Operation V) (w : World V F S)
      → IsServed w
      → find id w.tables.operations ≡ some o
      → same_error o.error message ≡ true
      → record_processing_error env id e w ≡ (ok tt, w)
  unfolding record_processing_error pause_found attempt pure ◌>>=◌ to_receipt
  shown-nothing o w s h same = elim (Bool-cases (is_terminal o.state)) [
    | inl t ↦ simp (get-served id w s, receipt_of-some id o w.tables h, t) refl
    | inr t ↦ simp (get-served id w s, receipt_of-some id o w.tables h, t, same) refl
  ]

  terminal-nothing :
      (o : Operation V) (w : World V F S)
      → IsServed w
      → find id w.tables.operations ≡ some o
      → is_terminal o.state ≡ true
      → record_processing_error env id e w ≡ (ok tt, w)
  unfolding record_processing_error pause_found attempt pure ◌>>=◌ to_receipt
  terminal-nothing o w s h t = simp (get-served id w s, receipt_of-some id o w.tables h, t) refl

  pauses :
      (o : Operation V) (w : World V F S)
      → IsServed w
      → Journal w.tables
      → find id w.tables.operations ≡ some o
      → is_terminal o.state ≡ false
      → same_error o.error message ≡ false
      → record_processing_error env id e w
        ≡ (ok tt, moved env.record_key keys id o (pause (to_receipt o) message) w)
  unfolding record_processing_error pause_found attempt pure ◌>>=◌ to_receipt
  pauses o w s j h t n =
      simp
        (
          get-served id w s,
          receipt_of-some id o w.tables h,
          t,
          n,
          transition-served env.record_key keys id o (pause (to_receipt o) message) w s j h t,
        )
        refl

  -- Recording the same failure a second time changes nothing, event, channel and row included: what
  -- `record_processing_error` leaves, it leaves as it is the next time, when the database serves both
  -- calls. The tables have their journal. Record keys are taken to be distinct for distinct ids.
  pub record_processing_error-repeats :
      (w : World V F S)
      → IsServed w
      → Journal w.tables
      → record_processing_error env id e (record_processing_error env id e w).1
        ≡ (ok tt, (record_processing_error env id e w).1)
  unfolding set_state to_receipt
  record_processing_error-repeats w s j = by_row (find id w.tables.operations) refl
    where
      again :
          (u : World V F S)
          → record_processing_error env id e w ≡ (ok tt, u)
          → record_processing_error env id e u ≡ (ok tt, u)
          → record_processing_error env id e (record_processing_error env id e w).1
            ≡ (ok tt, (record_processing_error env id e w).1)
      again u one two = rw one two

      by_row :
          (row : Option (Operation V))
          → find id w.tables.operations ≡ row
          → record_processing_error env id e (record_processing_error env id e w).1
            ≡ (ok tt, (record_processing_error env id e w).1)
      by_row none h = let nothing = absent-nothing w s h in again w nothing nothing
      by_row (some o) h = elim (Bool-cases (is_terminal o.state)) [
        | inl t ↦ let nothing = terminal-nothing o w s h t in again w nothing nothing
        | inr t ↦ elim (Bool-cases (same_error o.error message)) [
          | inl m ↦ let nothing = shown-nothing o w s h m in again w nothing nothing
          | inr m ↦
              let c = pause (to_receipt o) message in
              let u = moved env.record_key keys id o c w in
              again u (pauses o w s j h t m) (
                shown-nothing (set_state c (o.progress_seq + 1) o) u s
                  (find-after id id o c w.tables h ∙ rw (eq_refl id) refl) (eq_refl message))
        ]
      ]
