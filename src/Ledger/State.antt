-- ===== src/Ledger/State.antt =====
-- `OperationState` of src/operations.rs, with its textual codec.
use surreal_memory_server.Common.{
  String, ◌≡◌, refl, Bool, true, false, Option, none, some, ◌==◌, if◌then◌else◌,
}

pub data OperationState : Type 0 where
  accepted validated blocked planned processing indexed committed rejected : OperationState

unfoldable pub as_str : OperationState → String
as_str accepted = "accepted"
as_str validated = "validated"
as_str blocked = "blocked"
as_str planned = "planned"
as_str processing = "processing"
as_str indexed = "indexed"
as_str committed = "committed"
as_str rejected = "rejected"

unfoldable pub is_terminal : OperationState → Bool
is_terminal committed = true
is_terminal rejected = true
is_terminal _ = false

-- The column `state` of a row; `none` stands for the error "unknown operation state".
unfoldable pub parse_state : String → Option OperationState
parse_state state =
    if state == "accepted"
    then some accepted
    else if state == "validated"
    then some validated
    else if state == "blocked"
    then some blocked
    else if state == "planned"
    then some planned
    else if state == "processing"
    then some processing
    else if state == "indexed"
    then some indexed
    else if state == "committed"
    then some committed
    else if state == "rejected"
    then some rejected
    else none

-- Every state is read back from the text that is written for it.
pub parse_state-as_str : (s : OperationState) → parse_state (as_str s) ≡ some s
unfolding parse_state as_str
parse_state-as_str accepted = refl
parse_state-as_str _ = refl
