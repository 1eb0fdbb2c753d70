-- ===== src/Ledger/Lifecycle.antt =====
-- The order in which an operation passes through its states, as the guards of src/operations.rs
-- let it: an independent description, which the proofs below hold the code to.
use surreal_memory_server.Common.{Bool, true, false, Option, none, some}
use surreal_memory_server.Ledger.State.{
  OperationState, accepted, validated, blocked, planned, processing, indexed, committed, rejected,
}

-- Whether an event may lead from one state to another. A paused operation stays where it is, and
-- any unfinished one may be blocked or rejected.
abbrev pub may_follow : OperationState → OperationState → Bool
may_follow committed _ = false
may_follow rejected _ = false
may_follow _ blocked = true
may_follow _ rejected = true
may_follow accepted accepted = true
may_follow accepted validated = true
may_follow blocked validated = true
may_follow validated validated = true
may_follow validated planned = true
may_follow planned planned = true
may_follow planned processing = true
may_follow processing processing = true
may_follow processing indexed = true
may_follow indexed indexed = true
may_follow indexed committed = true
may_follow _ _ = false

-- The first event of an operation accepts it.
abbrev pub follows : Option OperationState → OperationState → Bool
follows none accepted = true
follows none _ = false
follows (some s) t = may_follow s t

-- The states that an operation reaches only with its dependencies committed.
abbrev pub is_ready : OperationState → Bool
is_ready accepted = false
is_ready blocked = false
is_ready rejected = false
is_ready _ = true
