-- ===== src/Ledger/Changes.antt =====
-- The changes that the coordinator asks of `transition`, and the tests of src/operations.rs on a
-- state.
use surreal_memory_server.Common.{
  String, Bool, true, false, Option, none, some, List, [], ◌∷◌, ◌==◌, ◌&&◌, not,
}
use surreal_memory_server.Ledger.State.{
  OperationState, accepted, validated, blocked, planned, processing, indexed, committed, rejected,
}
use surreal_memory_server.Ledger.Types.{
  Receipt, Detail, dependencies_not_committed, contract_rejected, paused, permanent_failure,
}
use surreal_memory_server.Ledger.Transition.{Change}

-- The changes that processing makes.
module _ {V : Type 0} where
  abbrev pub to : OperationState → Option Detail → Change V
  to s d = record { to = s; blocked_by = []; result = none; error = none; detail = d }

  abbrev pub block : List String → Change V
  block blockers = record {
    to = blocked;
    blocked_by = blockers;
    result = none;
    error = none;
    detail = some dependencies_not_committed;
  }

  abbrev pub reject_contract : String → Change V
  reject_contract message = record {
    to = rejected;
    blocked_by = [];
    result = none;
    error = some message;
    detail = some contract_rejected;
  }

  abbrev pub reject_failure : String → Change V
  reject_failure message = record {
    to = rejected;
    blocked_by = [];
    result = none;
    error = some message;
    detail = some (permanent_failure message);
  }

  -- A pause leaves everything but the error as the receipt shows it.
  abbrev pub pause : Receipt V → String → Change V
  pause r message = record {
    to = r.state;
    blocked_by = r.blocked_by;
    result = r.result;
    error = some message;
    detail = some (paused message);
  }

  abbrev pub finished : OperationState → V → Option Detail → Change V
  finished s v d = record { to = s; blocked_by = []; result = some v; error = none; detail = d }

abbrev pub is_validated : OperationState → Bool
is_validated validated = true
is_validated _ = false

abbrev pub is_planned : OperationState → Bool
is_planned planned = true
is_planned _ = false

abbrev pub is_processing : OperationState → Bool
is_processing processing = true
is_processing _ = false

abbrev pub is_blocked : OperationState → Bool
is_blocked blocked = true
is_blocked _ = false

abbrev pub is_committed : OperationState → Bool
is_committed committed = true
is_committed _ = false

abbrev pub is_indexed : OperationState → Bool
is_indexed indexed = true
is_indexed _ = false

-- `Accepted | Blocked`.
abbrev pub needs_validation : OperationState → Bool
needs_validation accepted = true
needs_validation blocked = true
needs_validation _ = false

abbrev pub same_texts : List String → List String → Bool
same_texts [] [] = true
same_texts [] (y ∷ ys) = false
same_texts (x ∷ xs) [] = false
same_texts (x ∷ xs) (y ∷ ys) = x == y && same_texts xs ys

abbrev pub same_error : Option String → String → Bool
same_error none m = false
same_error (some e) m = e == m

-- A dependency blocks unless its receipt says that it is committed.
abbrev pub blocks : {V : Type 0} → Option (Receipt V) → Bool
blocks none = true
blocks (some r) = not (is_committed r.state)
