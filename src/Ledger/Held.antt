-- ===== src/Ledger/Held.antt =====
-- What the coordinator knows of the operation that it works on, and how its steps carry it.
use surreal_memory_server.Common.{String, ◌≡◌, refl, ◌∙◌, subst, true, Option, none, some, All}
use surreal_memory_server.Ledger.State.{OperationState, validated, planned, processing}
use surreal_memory_server.Ledger.Types.{Operation, Tables}
use surreal_memory_server.Ledger.Queries.{find}
use surreal_memory_server.Ledger.Transition.{Change, transition}
use surreal_memory_server.Ledger.Lifecycle.{may_follow}
use surreal_memory_server.Ledger.Sound.{Grows, Survives, IsCommitted, All-IsCommitted-Grows}
use surreal_memory_server.Ledger.Safe.{Safe, Safe-frame, Safe-strengthen, Safe-weaken}
use surreal_memory_server.Ledger.Guarded.{InState, CanMove, transition-Safe}
use surreal_memory_server.Ledger.Plan.Sound.{Kept, parts-Grows, snapped-Grows, state-snapped}

-- An operation that was only validated is planned,
abbrev pub scheduled : OperationState → OperationState
scheduled validated = planned
scheduled s = s

-- and one that was planned is put in `processing`.
abbrev pub begun : OperationState → OperationState
begun planned = processing
begun s = s

-- Where an operation stands once its work begins.
abbrev pub started : OperationState → OperationState
started s = begun (scheduled s)

module _ {V F : Type 0} (o : Operation V) where
  -- The row is there with the dependencies that were read, and all of them are committed.
  abbrev pub Grounded : Tables V F → Type 0
  Grounded t =
      (row : Operation V) × (find o.operation_id t.operations ≡ some row)
      × (row.dependencies ≡ o.dependencies)
      × All (IsCommitted t) o.dependencies

  -- Beside that, the operation is in the state `s`.
  abbrev pub At : OperationState → Tables V F → Type 0
  At s t = InState o.operation_id s t × Grounded t

  pub Grounded-Grows : (t u : Tables V F) → Grows t u → Grounded t → Grounded u
  Grounded-Grows t u g (row, e, d, c) =
      go (find o.operation_id u.operations) refl (g.rows o.operation_id row e)
    where
      go :
          (last : Option (Operation V))
          → find o.operation_id u.operations ≡ last
          → Survives row last
          → Grounded u
      go none q s = absurd s
      go (some p) q s = (p, q, s.dependencies ∙ d, All-IsCommitted-Grows t u o.dependencies g c)

  pub At-kept : (s : OperationState) → Kept (At s)
  At-kept s = record {
    parts = λ t ps h. (h.0, Grounded-Grows t _ (parts-Grows t ps) h.1);
    snapshot = λ id sn t h. (
      state-snapped id sn t o.operation_id ∙ h.0,
      Grounded-Grows t _ (snapped-Grows id sn t) h.1,
    );
  }

  At-CanMove :
      (s : OperationState) (c : Change V) (t : Tables V F)
      → may_follow s c.to ≡ true
      → At s t
      → CanMove o.operation_id c t
  At-CanMove s c t edge (here, (row, e, d, all)) r found live =
      let same : row ≡ r = cc in
      let placed : r.state ≡ s = cc in
      (
        rw placed edge,
        λ _. subst (λ (x : Operation V). All (IsCommitted t) x.dependencies) same (rw d all),
      )

module _ {V F S : Type 0} (record_key : String → String)
    (keys : (a b : String) → record_key a ≡ record_key b → a ≡ b) where
  -- A transition along an edge of the lifecycle.
  pub step-Safe :
      (o : Operation V) (s : OperationState) (c : Change V)
      → may_follow s c.to ≡ true
      → Safe {F = F} {S = S} (At o s) (transition record_key o.operation_id c) (λ _. At o c.to)
  step-Safe o s c edge =
      Safe-weaken _ _ (λ r t m. (m.0.2, m.1))
        (Safe-strengthen _ _ (λ t _ h. (At-CanMove o s c t edge h, h.1))
          (Safe-frame (CanMove o.operation_id c) (Grounded o) _ _ (Grounded-Grows o)
            (transition-Safe record_key keys o.operation_id c)))
