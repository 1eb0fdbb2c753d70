-- ===== src/Ledger/Sound.antt =====
-- The ledger's invariant, and the order in which its tables grow.
use mathlib.Core.List.{append_assoc}
use surreal_memory_server.Common.{
  ◌≤◌, String, ◌≡◌, refl, ap, ◌∙◌, sym, true, Option, none, some, List, [], ◌∷◌, ◌++◌, arith, All,
}
use surreal_memory_server.Ledger.State.{committed, is_terminal}
use surreal_memory_server.Ledger.Types.{Operation, Event, Tables}
use surreal_memory_server.Ledger.Queries.{find}
use surreal_memory_server.Ledger.Lifecycle.{is_ready}
use surreal_memory_server.Ledger.Journal.{Journal, state_of}

module _ {V F : Type 0} where
  abbrev pub IsCommitted : Tables V F → String → Type 0
  IsCommitted t d = state_of (find d t.operations) ≡ some committed

  -- Every operation has its journal, and has passed `blocked` only with all that it depends on
  -- committed.
  pub record Sound (t : Tables V F) : Type 0 where
    pub journal : Journal t
    pub ready :
        (id : String) (o : Operation V)
        → find id t.operations ≡ some o
        → is_ready o.state ≡ true
        → All (IsCommitted t) o.dependencies

-- What a row keeps: what was submitted never changes, its number never falls, and from a terminal
-- state on neither does what a receipt says of the outcome.
pub record Later {V : Type 0} (o p : Operation V) : Type 0 where
  pub operation_id : p.operation_id ≡ o.operation_id
  pub kind : p.kind ≡ o.kind
  pub dependencies : p.dependencies ≡ o.dependencies
  pub payload_hash : p.payload_hash ≡ o.payload_hash
  pub payload : p.payload ≡ o.payload
  pub sequence : o.progress_seq ≤ p.progress_seq
  pub final :
      is_terminal o.state ≡ true
      → (p.state ≡ o.state)
        × (p.result ≡ o.result)
        × (p.error ≡ o.error)
        × (p.blocked_by ≡ o.blocked_by)
        × (p.progress_seq ≡ o.progress_seq)

abbrev pub Survives : {V : Type 0} → Operation V → Option (Operation V) → Type 0
Survives o none = ⊥
Survives o (some p) = Later o p

-- No row is lost, each is a later one of itself, and events are only added.
pub record Grows {V F : Type 0} (t u : Tables V F) : Type 0 where
  pub rows :
      (id : String) (o : Operation V)
      → find id t.operations ≡ some o
      → Survives o (find id u.operations)
  pub events : (new : List Event) × (u.events ≡ new ++ t.events)

module _ {V : Type 0} where
  pub Later-refl : (o : Operation V) → Later o o
  Later-refl o = record {
    operation_id = refl;
    kind = refl;
    dependencies = refl;
    payload_hash = refl;
    payload = refl;
    sequence = omega arith;
    final = λ h. (refl, refl, refl, refl, refl);
  }

  pub Later-trans : (o p q : Operation V) → Later o p → Later p q → Later o q
  Later-trans o p q a b = record {
    operation_id = b.operation_id ∙ a.operation_id;
    kind = b.kind ∙ a.kind;
    dependencies = b.dependencies ∙ a.dependencies;
    payload_hash = b.payload_hash ∙ a.payload_hash;
    payload = b.payload ∙ a.payload;
    sequence = omega arith;
    final = λ h.
        let before = a.final h in
        let then_ = b.final (rw before.0 h) in
        (
          then_.0 ∙ before.0,
          then_.1 ∙ before.1,
          then_.2 ∙ before.2,
          then_.3 ∙ before.3,
          then_.4 ∙ before.4,
        );
  }

module _ {V F : Type 0} where
  pub Grows-refl : (t : Tables V F) → Grows t t
  Grows-refl t = record { rows = λ id o found. rw found (Later-refl o); events = ([], refl) }

  pub Grows-trans : (t u v : Tables V F) → Grows t u → Grows u v → Grows t v
  Grows-trans t u v a b = record {
    rows = λ id o found. step id o (find id u.operations) refl (a.rows id o found);
    events = (
      b.events.0 ++ a.events.0,
      b.events.1
          ∙ ap (λ es. b.events.0 ++ es) a.events.1
          ∙ sym (append_assoc b.events.0 a.events.0 t.events),
    );
  }
    where
      onward :
          (o p : Operation V) (last : Option (Operation V))
          → Later o p
          → Survives p last
          → Survives o last
      onward o p none l s = s
      onward o p (some q) l s = Later-trans o p q l s

      step :
          (id : String) (o : Operation V) (middle : Option (Operation V))
          → find id u.operations ≡ middle
          → Survives o middle
          → Survives o (find id v.operations)
      step id o none e s = absurd s
      step id o (some p) e s = onward o p (find id v.operations) s (b.rows id p e)

  -- A dependency that is committed stays so.
  pub IsCommitted-Grows :
      (t u : Tables V F) (d : String) → Grows t u → IsCommitted t d → IsCommitted u d
  unfolding is_terminal
  IsCommitted-Grows t u d g h = from_row (find d t.operations) refl h
    where
      shown :
          (o : Operation V) (last : Option (Operation V))
          → o.state ≡ committed
          → Survives o last
          → state_of last ≡ some committed
      shown o none e s = absurd s
      shown o (some p) e s = ap some ((s.final (rw e refl)).0 ∙ e)

      from_row :
          (row : Option (Operation V))
          → find d t.operations ≡ row
          → state_of row ≡ some committed
          → IsCommitted u d
      from_row none e c = absurd (cc)
      from_row (some o) e c = shown o (find d u.operations) (cc) (g.rows d o e)

  pub All-IsCommitted-Grows :
      (t u : Tables V F) (ds : List String)
      → Grows t u
      → All (IsCommitted t) ds
      → All (IsCommitted u) ds
  All-IsCommitted-Grows t u [] g h = tt
  All-IsCommitted-Grows t u (d ∷ ds) g h =
      (IsCommitted-Grows t u d g h.0, All-IsCommitted-Grows t u ds g h.1)
