-- ===== src/Ledger/Operator/Replies.antt =====
-- What `retry` and `reject` answer and change, branch by branch, when the database serves every
-- call.
use surreal_memory_server.Common.{
  String, ◌≡◌, refl, Bool, true, false, Option, none, some, ◌∷◌, ◌==◌, ◌&&◌, not, Bool-cases, inl,
  inr, if◌then◌else◌,
}
use surreal_memory_server.Common.Text.{trim, is_empty}
use surreal_memory_server.Ledger.State.{is_terminal}
use surreal_memory_server.Ledger.Types.{Operation, World}
use surreal_memory_server.Ledger.Monad.{ok, pure, gets, modify, ◌>>=◌}
use surreal_memory_server.Ledger.Queries.{to_receipt, find}
use surreal_memory_server.Ledger.Transition.{receipt_of, wake}
use surreal_memory_server.Ledger.Changes.{is_indexed}
use surreal_memory_server.Ledger.Served.{IsServed, get-served, receipt_of-some, receipt_of-none}
use surreal_memory_server.Ledger.Env.{Env}
use surreal_memory_server.Ledger.Operator.{
  Answer, done, refusal, Refusal, not_found, already, being_processed, reason_empty, already_stored,
  retry, retry_found, reject, reject_idle, reject_found, reject_unless_stored, memory_stored,
  is_being_processed,
}

module _ {V F S : Type 0} (env : Env V F S) (id : String) (w : World V F S) where
  abbrev pub retried : Option (Operation V) → Answer V
  retried none = refusal not_found
  retried (some o) = if is_terminal o.state then refusal (already o.state) else done (to_receipt o)

  abbrev pub is_live : Option (Operation V) → Bool
  is_live none = false
  is_live (some o) = not (is_terminal o.state)

  -- When the database serves the call, `retry` answers with the receipt of an operation that is
  -- not terminal, and says so if it is terminal or not there. All that it changes is the wake
  -- queue, and that just for an operation that is not terminal.
  pub retry-served :
      IsServed w
      → retry env id w ≡ (
        ok (retried (find id w.tables.operations)),
        if is_live (find id w.tables.operations) then record w { wakes = id ∷ w.wakes } else w,
      )
  unfolding retry retry_found wake modify pure ◌>>=◌ to_receipt
  retry-served served = simp (get-served id w served) (answer (find id w.tables.operations) refl)
    where
      answer :
          (row : Option (Operation V))
          → find id w.tables.operations ≡ row
          → retry_found env id (receipt_of id w.tables) w
            ≡ (ok (retried row), if is_live row then record w { wakes = id ∷ w.wakes } else w)
      answer none e = simp (receipt_of-none id w.tables e) refl
      answer (some o) e = elim (Bool-cases (is_terminal o.state)) [
        | inl t ↦ simp (receipt_of-some id o w.tables e, t) refl
        | inr t ↦ simp (receipt_of-some id o w.tables e, t) refl
      ]

  -- Why an operation is not rejected, whatever the memory storage holds: whether it is being
  -- processed, and its row.
  abbrev pub refused_for : Bool → Option (Operation V) → Option Refusal
  refused_for true row = some being_processed
  refused_for false none = some not_found
  refused_for false (some o) =
      if is_terminal o.state
      then some (already o.state)
      else if is_indexed o.state && not (o.kind == "add_memory")
      then some already_stored
      else none

  -- An operator's reason that is empty or only white space is refused before anything is read.
  pub reject-blank :
      (reason : String) → trim reason ≡ "" → reject env id reason w ≡ (ok (refusal reason_empty), w)
  unfolding reject pure is_empty
  reject-blank reason blank = rw blank refl

  -- When the database serves the call, `reject` refuses an operation that is being processed, one
  -- that is not there, one that is terminal, and one that is indexed and not an `add_memory`, for
  -- the first of these reasons that holds; it changes nothing then. The reason given is not blank.
  pub reject-refused :
      (reason : String)
      → IsServed w
      → is_empty (trim reason) ≡ false
      → (x : Refusal)
      → refused_for (is_being_processed id w.in_flight) (find id w.tables.operations) ≡ some x
      → reject env id reason w ≡ (ok (refusal x), w)
  unfolding reject gets ◌>>=◌ reject_idle reject_found reject_unless_stored memory_stored pure
      to_receipt
  reject-refused reason served shown x h =
      simp shown (go (is_being_processed id w.in_flight) (find id w.tables.operations) refl h)
    where
      go :
          (busy : Bool) (row : Option (Operation V))
          → find id w.tables.operations ≡ row
          → refused_for busy row ≡ some x
          → reject_idle env id (trim reason) busy w ≡ (ok (refusal x), w)
      go true row e h = cc
      go false none e h = simp (get-served id w served, receipt_of-none id w.tables e) (cc)
      go false (some o) e h = elim (Bool-cases (is_terminal o.state)) [
        | inl t ↦
            let same : some (already o.state) ≡ some x = simp t at h in
            simp (get-served id w served, receipt_of-some id o w.tables e, t) (cc (same))
        | inr t ↦ elim (Bool-cases (is_indexed o.state)) [
          | inl k ↦ elim (Bool-cases (o.kind == "add_memory")) [
            | inl m ↦ let none_ : none ≡ some x = simp (t, k, m) at h in cc (none_)
            | inr m ↦
                let same : some already_stored ≡ some x = simp (t, k, m) at h in
                simp (get-served id w served, receipt_of-some id o w.tables e, t, k, m) (cc (same))
          ]
          | inr k ↦ let none_ : none ≡ some x = simp (t, k) at h in cc (none_)
        ]
      ]
