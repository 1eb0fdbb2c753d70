-- ===== src/Ledger/System/Reached.antt =====
-- The ledgers that calls of the service reach from an empty one.
use surreal_memory_server.Common.{◌≤◌, String, ◌≡◌, true, Option, none, some, List, ◌++◌, All}
use surreal_memory_server.Ledger.State.{is_terminal}
use surreal_memory_server.Ledger.Types.{Operation, Event, Outcome, World}
use surreal_memory_server.Ledger.Queries.{find, events_of}
use surreal_memory_server.Ledger.Lifecycle.{is_ready}
use surreal_memory_server.Ledger.Journal.{History, state_of, sequence_of}
use surreal_memory_server.Ledger.Sound.{Sound, Grows, Survives, IsCommitted}
use surreal_memory_server.Ledger.Env.{Env}
use surreal_memory_server.Ledger.Aggregate.{Floats}
use surreal_memory_server.Ledger.System.{Call, empty, empty-Sound, run, run-Kept}

-- The row of an operation, if there is one, that shows the outcome of the row `o`.
abbrev pub SameOutcome : {V : Type 0} → Operation V → Option (Operation V) → Type 0
SameOutcome o none = ⊥
SameOutcome o (some p) =
    (p.state ≡ o.state)
    × (p.result ≡ o.result)
    × (p.error ≡ o.error)
    × (p.blocked_by ≡ o.blocked_by)
    × (p.progress_seq ≡ o.progress_seq)

-- The row of an operation, if there is one, that a later stage of the row `o` shows.
abbrev pub SameSubmission : {V : Type 0} → Operation V → Option (Operation V) → Type 0
SameSubmission o none = ⊥
SameSubmission o (some p) =
    (p.kind ≡ o.kind)
    × (p.dependencies ≡ o.dependencies)
    × (p.payload_hash ≡ o.payload_hash)
    × (p.payload ≡ o.payload)
    × (o.progress_seq ≤ p.progress_seq)

module _ {V F S : Type 0} (env : Env V F S) (floats : Floats F) (payload_hash : V → Option String)
    (keys : (a b : String) → env.record_key a ≡ env.record_key b → a ≡ b) (outcomes : List Outcome)
    (s : S) where
  abbrev reached : List (Call V) → World V F S
  reached cs = run env floats payload_hash cs (empty outcomes s)

  reached-Sound : (cs : List (Call V)) → Sound (reached cs).tables
  reached-Sound cs =
      (run-Kept env floats payload_hash keys cs (empty outcomes s) (empty-Sound outcomes s)).0

  growth :
      (cs ds : List (Call V))
      → Grows (reached cs).tables (run env floats payload_hash ds (reached cs)).tables
  growth cs ds = (run-Kept env floats payload_hash keys ds (reached cs) (reached-Sound cs)).1

  outcome-kept :
      (o : Operation V) (row : Option (Operation V))
      → is_terminal o.state ≡ true
      → Survives o row
      → SameOutcome o row
  outcome-kept o none h k = k
  outcome-kept o (some p) h k = k.final h

  submission-kept :
      (o : Operation V) (row : Option (Operation V)) → Survives o row → SameSubmission o row
  submission-kept o none k = k
  submission-kept o (some p) k = (k.kind, k.dependencies, k.payload_hash, k.payload, k.sequence)

  -- Once the row of an operation is committed or rejected, it stays in the ledger, and no later
  -- calls change its state, result, error, blockers or sequence number, however the database
  -- answers them. Record keys are taken to be distinct for distinct ids.
  pub outcomes_are_final :
      (cs ds : List (Call V)) (id : String) (o : Operation V)
      → find id (reached cs).tables.operations ≡ some o
      → is_terminal o.state ≡ true
      → SameOutcome o (find id (run env floats payload_hash ds (reached cs)).tables.operations)
  outcomes_are_final cs ds id o found end = outcome-kept o _ end ((growth cs ds).rows id o found)

  -- However the database answers, after any calls the events of every operation are numbered
  -- 1, 2, … without a gap or a repetition, each starts from the state at which the one before it
  -- ended, each step is one of the edges of `may_follow`, and the row has the state and the
  -- sequence number of the last. An id without a row has no event. Record keys are taken to be
  -- distinct for distinct ids.
  pub events-History :
      (cs : List (Call V)) (id : String)
      → History
          (events_of id (reached cs).tables.events)
          (state_of (find id (reached cs).tables.operations))
          (sequence_of (find id (reached cs).tables.operations))
  events-History cs id = (reached-Sound cs).journal.history id

  -- However the database answers, after any calls an operation that is validated, planned, in
  -- processing, indexed or committed has all its dependencies committed. Record keys are taken to
  -- be distinct for distinct ids.
  pub dependencies_come_first :
      (cs : List (Call V)) (id : String) (o : Operation V)
      → find id (reached cs).tables.operations ≡ some o
      → is_ready o.state ≡ true
      → All (IsCommitted (reached cs).tables) o.dependencies
  dependencies_come_first cs = (reached-Sound cs).ready

  -- However the database answers, no later calls lose the row of an operation or change the kind,
  -- dependencies, hash and payload that were submitted, and its sequence number does not fall.
  -- Record keys are taken to be distinct for distinct ids.
  pub submissions_are_kept :
      (cs ds : List (Call V)) (id : String) (o : Operation V)
      → find id (reached cs).tables.operations ≡ some o
      → SameSubmission o (find id (run env floats payload_hash ds (reached cs)).tables.operations)
  submissions_are_kept cs ds id o found = submission-kept o _ ((growth cs ds).rows id o found)

  -- However the database answers, later calls only put new events before the old ones. Record
  -- keys are taken to be distinct for distinct ids.
  pub events_are_only_added :
      (cs ds : List (Call V))
      → (new : List Event) × ((run env floats payload_hash ds (reached cs)).tables.events
          ≡ new ++ (reached cs).tables.events)
  events_are_only_added cs ds = (growth cs ds).events
