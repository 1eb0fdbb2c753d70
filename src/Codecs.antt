-- ===== src/Codecs.antt =====
-- The names under which the enums of the data model are stored, in src/operations.rs and
-- crates/surreal-memory/src: mindmap.rs, task_step.rs, task_stream.rs and compression/contract.rs.
mod Examples
use surreal_memory_server.Common.{
  String, Option, none, some, ◌==◌, eq_iff, if◌then◌else◌, Result, ok, err, ◌≡◌, refl, sym, ap, ◌∙◌,
  ◌↔◌, arith,
}
use surreal_memory_server.Ledger.State
use surreal_memory_server.Ledger.State.{OperationState}
use surreal_memory_server.Compression.Status
use surreal_memory_server.Compression.Status.{ClaimStatus}
use surreal_memory_server.Mindmap
use surreal_memory_server.Mindmap.{MapType, radial, concept, argument, tree, temporal}
use surreal_memory_server.Tasks.Step
use surreal_memory_server.Tasks.Step.{TaskStepStatus, pending, running, completed, failed, skipped}
use surreal_memory_server.Tasks.Stream
use surreal_memory_server.Tasks.Stream.{TaskStreamStatus, active, paused, archived}

MapType-iff :
    (raw : String) (t : MapType) → (Mindmap.parse_str raw ≡ ok t) ↔ (raw ≡ Mindmap.as_str t)
unfolding Mindmap.parse_str Mindmap.as_str
MapType-iff raw t = (
  λ h. ground (
    arith,
    eq_iff raw "radial",
    eq_iff raw "concept",
    eq_iff raw "argument",
    eq_iff raw "tree",
    eq_iff raw "temporal",
  ),
  λ h. ap Mindmap.parse_str h ∙ back t,
)
  where
    back : (t : MapType) → Mindmap.parse_str (Mindmap.as_str t) ≡ ok t
    back radial = refl
    back _ = refl

TaskStepStatus-iff :
    (raw : String) (s : TaskStepStatus) → (Step.parse_str raw ≡ ok s) ↔ (raw ≡ Step.as_str s)
unfolding Step.parse_str Step.as_str
TaskStepStatus-iff raw s = (
  λ h. ground (
    arith,
    eq_iff raw "pending",
    eq_iff raw "running",
    eq_iff raw "completed",
    eq_iff raw "failed",
    eq_iff raw "skipped",
  ),
  λ h. ap Step.parse_str h ∙ back s,
)
  where
    back : (s : TaskStepStatus) → Step.parse_str (Step.as_str s) ≡ ok s
    back pending = refl
    back _ = refl

TaskStreamStatus-iff :
    (raw : String) (s : TaskStreamStatus) → (Stream.parse_str raw ≡ ok s) ↔ (raw ≡ Stream.as_str s)
unfolding Stream.parse_str Stream.as_str
TaskStreamStatus-iff raw s = (
  λ h. ground (arith, eq_iff raw "active", eq_iff raw "paused", eq_iff raw "archived"),
  λ h. ap Stream.parse_str h ∙ back s,
)
  where
    back : (s : TaskStreamStatus) → Stream.parse_str (Stream.as_str s) ≡ ok s
    back active = refl
    back _ = refl

ClaimStatus-iff :
    (raw : String) (s : ClaimStatus) → (Status.parse raw ≡ some s) ↔ (raw ≡ Status.as_str s)
unfolding Status.parse Status.as_str
ClaimStatus-iff raw s = (
  λ h. ground (
    arith,
    eq_iff raw "candidate",
    eq_iff raw "promoted",
    eq_iff raw "quarantined",
    eq_iff raw "rejected",
    eq_iff raw "superseded",
    eq_iff raw "demoted",
    eq_iff raw "stale",
  ),
  λ h. ap Status.parse h ∙ Status.parse-as_str s,
)

OperationState-iff :
    (raw : String) (s : OperationState) → (State.parse_state raw ≡ some s) ↔ (raw ≡ State.as_str s)
unfolding State.parse_state State.as_str
OperationState-iff raw s = (
  λ h. ground (
    arith,
    eq_iff raw "accepted",
    eq_iff raw "validated",
    eq_iff raw "blocked",
    eq_iff raw "planned",
    eq_iff raw "processing",
    eq_iff raw "indexed",
    eq_iff raw "committed",
    eq_iff raw "rejected",
  ),
  λ h. ap State.parse_state h ∙ State.parse_state-as_str s,
)

-- A text is parsed to a value of an enum exactly if it is the name of that value: for the states of
-- operations, the statuses of claims, the types of mind maps, and the statuses of steps and streams.
pub parsers_iff :
    (raw : String) (o : OperationState) (c : ClaimStatus) (m : MapType) (s : TaskStepStatus)
    (t : TaskStreamStatus)
    → ((State.parse_state raw ≡ some o) ↔ (raw ≡ State.as_str o))
      × ((Status.parse raw ≡ some c) ↔ (raw ≡ Status.as_str c))
      × ((Mindmap.parse_str raw ≡ ok m) ↔ (raw ≡ Mindmap.as_str m))
      × ((Step.parse_str raw ≡ ok s) ↔ (raw ≡ Step.as_str s))
      × ((Stream.parse_str raw ≡ ok t) ↔ (raw ≡ Stream.as_str t))
parsers_iff raw o c m s t = (
  OperationState-iff raw o,
  ClaimStatus-iff raw c,
  MapType-iff raw m,
  TaskStepStatus-iff raw s,
  TaskStreamStatus-iff raw t,
)
