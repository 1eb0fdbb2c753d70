-- ===== src/Ledger/Guarded.antt =====
-- `transition` under every answer of the database.
use surreal_memory_server.Common.{
  String, ◌≡◌, eq_refl, refl, sym, ◌∙◌, true, false, Option, none, some, All,
}
use surreal_memory_server.Ledger.State.{OperationState, is_terminal}
use surreal_memory_server.Ledger.Types.{Operation, Receipt, Event, Tables}
use surreal_memory_server.Ledger.Queries.{to_receipt, find}
use surreal_memory_server.Ledger.Transition.{
  Change, set_state, receipt_of, or_missing, get, publish, get_db, commit_transition, transition,
  wake,
}
use surreal_memory_server.Ledger.Lifecycle.{is_ready, may_follow}
use surreal_memory_server.Ledger.Journal.{state_of, find_key-find}
use surreal_memory_server.Ledger.Commit.{after, find-after, fresh-transition_commits}
use surreal_memory_server.Ledger.Sound.{IsCommitted}
use surreal_memory_server.Ledger.Advance.{after-Grows, after-Sound}
use surreal_memory_server.Ledger.Safe.{
  Safe, Safe-pure, Safe-raise, Safe-if, Safe-fetch, Safe-write, Safe-modify, Safe-bind,
  Safe-strengthen, Safe-weaken,
}

module _ {V F : Type 0} where
  abbrev pub InState : String → OperationState → Tables V F → Type 0
  InState id s t = state_of (find id t.operations) ≡ some s

  -- The transition `c` is an edge of the lifecycle from where the operation is, and where it leads
  -- past `blocked`, all dependencies are committed.
  abbrev pub CanMove : String → Change V → Tables V F → Type 0
  CanMove id c t =
      (o : Operation V)
      → find id t.operations ≡ some o
      → is_terminal o.state ≡ false
      → (may_follow o.state c.to ≡ true)
        × (is_ready c.to ≡ true → All (IsCommitted t) o.dependencies)

module _ {V F : Type 0} where
  pub receipt-state :
      (id : String) (s : OperationState) (t : Tables V F) (r : Receipt V)
      → receipt_of id t ≡ some r
      → InState id s t
      → r.state ≡ s
  unfolding receipt_of to_receipt
  receipt-state id s t r e h = go (find id t.operations) refl e h
    where
      go :
          (row : Option (Operation V))
          → find id t.operations ≡ row
          → elim row [ none ↦ none | some o ↦ some (to_receipt o) ] ≡ some r
          → state_of row ≡ some s
          → r.state ≡ s
      go none q e h = absurd (cc)
      go (some o) q e h = cc

module _ {V F S : Type 0} where
  pub Safe-or_missing :
      {A : Type 0} (P : Tables V F → Type 0) (x : Option A)
      → Safe {S = S} P (or_missing x) (λ a t. (x ≡ some a) × P t)
  unfolding or_missing
  Safe-or_missing P none = Safe-raise _
  Safe-or_missing P (some a) = Safe-pure a (λ t p. (refl, p))

  pub Safe-get :
      (P : Tables V F → Type 0) (id : String)
      → Safe {S = S} P (get id) (λ r t. (receipt_of id t ≡ r) × P t)
  unfolding get
  Safe-get P id = Safe-fetch (receipt_of id) (λ t p. (refl, p))

  pub Safe-publish : (P : Tables V F → Type 0) (e : Event) → Safe {S = S} P (publish e) (λ _ t. P t)
  unfolding publish
  Safe-publish P e = Safe-modify _ (λ w. refl) (λ t p. p)

  pub Safe-wake : (P : Tables V F → Type 0) (id : String) → Safe {S = S} P (wake id) (λ _ t. P t)
  unfolding wake
  Safe-wake P id = Safe-modify _ (λ w. refl) (λ t p. p)

module _ {V F : Type 0} where
  -- What a successful transition returns, and where it leaves the operation.
  abbrev pub Moved : String → Change V → Receipt V → Tables V F → Type 0
  Moved id c r t = (receipt_of id t ≡ some r) × (r.state ≡ c.to) × InState id c.to t

module _ {V F S : Type 0} (record_key : String → String)
    (keys : (a b : String) → record_key a ≡ record_key b → a ≡ b) (id : String) (c : Change V) where
  commit-Safe :
      (current : Operation V)
      → is_terminal current.state ≡ false
      → Safe {F = F} {S = S}
          (λ t. (find id t.operations ≡ some current) × CanMove id c t)
          (commit_transition record_key id current c)
          (Moved id c)
  unfolding commit_transition set_state
  commit-Safe current live =
      Safe-bind {Q = λ _ t. InState id c.to t} _ _
        (Safe-write _ λ t u s p e.
          let same : after id current c t ≡ u =
            cc (fresh-transition_commits record_key keys id current c t s.journal p.0) in
          let can = p.1 current p.0 live in
          rw (← same) (
            after-Sound record_key keys id current c t p.0 s can.0 live can.1,
            after-Grows record_key keys id current c t p.0 live,
            rw (find-after id id current c t p.0, eq_refl id),
          ))
        λ _. Safe-bind _ _ (Safe-publish _ _) λ _. Safe-bind _ _ (Safe-get _ id) λ r.
          Safe-weaken _ _
            (λ shown t p. let e = p.1.0 ∙ p.0 in (e, receipt-state id c.to t shown e p.1.1, p.1.1))
            (Safe-or_missing _ r)

  pub transition-Safe :
      Safe {F = F} {S = S} (CanMove id c) (transition record_key id c) (Moved id c)
  unfolding transition get_db
  transition-Safe =
      Safe-bind {Q = λ row t. (find id t.operations ≡ row) × CanMove id c t} _ _
        (Safe-fetch _ (λ t p. (sym (find_key-find record_key keys id t.operations), p)))
        λ row. Safe-bind _ _ (Safe-or_missing _ row) λ current.
          Safe-if _ _ _ (λ ended. Safe-raise _)
            (λ live. Safe-strengthen _ _ (λ t s p. (p.1.0 ∙ p.0, p.1.1)) (commit-Safe current live))
