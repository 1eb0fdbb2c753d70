-- ===== src/Tasks/Steps.antt =====
-- The operations on steps of crates/surreal-memory/src/storage/surreal.rs. The database answers
-- every statement here; what other callers insert between the check for a key and the insertion is
-- an argument.
pub mod Calls
pub mod Replay
pub mod Current
use surreal_memory_server.Common.{
  ℕ, String, Bool, true, false, not, ◌&&◌, ◌||◌, Option, none, some, List, [], ◌∷◌, ◌++◌, any, keep,
  leb, eqb, ◌==◌, if◌then◌else◌, Result, ok, err,
}
use surreal_memory_server.Common.Sort.{sort_by}
use surreal_memory_server.Tasks.Stream.{TaskStream, get_task_stream}
use surreal_memory_server.Tasks.Step.{
  TaskStepStatus, pending, running, completed, failed, skipped, TaskStep, as_str,
}

pub data StepError : Type 0 where
  stream_not_found : String → StepError
  stream_without_id : StepError
  step_not_found : String → StepError

pub record Tables : Type 0 where
  pub streams : List TaskStream
  pub steps : List TaskStep

unfoldable pub find_task_step_by_key : String → List TaskStep → Option TaskStep
find_task_step_by_key key [] = none
find_task_step_by_key key (s ∷ rest) =
    if s.idempotency_key == key then some s else find_task_step_by_key key rest

-- `CREATE` under the unique index on the key; `none` is its violation.
unfoldable pub create_step : TaskStep → List TaskStep → Option (List TaskStep)
unfolding find_task_step_by_key
create_step s rows = elim (find_task_step_by_key s.idempotency_key rows) [
  | some t ↦ none
  | none ↦ some (rows ++ s ∷ [])
]

-- What other callers create meanwhile.
unfoldable pub create_all : List TaskStep → List TaskStep → List TaskStep
unfolding create_step
create_all [] rows = rows
create_all (s ∷ rest) rows =
    create_all rest (elim (create_step s rows) [ none ↦ rows | some rows' ↦ rows' ])

-- The stream's id, for an operation on its steps.
unfoldable pub stream_id : String → Option String → Option String → Tables → Result String StepError
unfolding get_task_stream
stream_id name user agent t = elim (get_task_stream name user agent t.streams) [
  | none ↦ err (stream_not_found name)
  | some s ↦ elim s.id [ none ↦ err stream_without_id | some sid ↦ ok sid ]
]

-- After a violation of the index the step is read again.
unfoldable pub or_existing : String → Option TaskStep → Result TaskStep StepError
or_existing key (some s) = ok s
or_existing key none = err (step_not_found key)

abbrev pub with_steps : Tables → List TaskStep → Tables
with_steps t rows = record t { steps = rows }

unfoldable pub insert_step :
    TaskStep → Option (List TaskStep) → List TaskStep → Tables → Result TaskStep StepError × Tables
unfolding or_existing find_task_step_by_key
insert_step linked (some rows') rows t = (ok linked, with_steps t rows')
insert_step linked none rows t = (
  or_existing linked.idempotency_key (find_task_step_by_key linked.idempotency_key rows),
  with_steps t rows,
)

unfoldable pub unless_known :
    TaskStep → List TaskStep → Option TaskStep → Tables → Result TaskStep StepError × Tables
unfolding insert_step create_all create_step
unless_known linked others (some existing) t = (ok existing, t)
unless_known linked others none t =
    let rows = create_all others t.steps in insert_step linked (create_step linked rows) rows t

-- The step that is written for a request: linked, with the record's id and the moment.
abbrev pub linked_to : String → String → ℕ → TaskStep → TaskStep
linked_to sid key now step = record step {
  id = some key;
  task_stream_id = some sid;
  created_at = now;
}

unfoldable pub add_task_step :
    String
    → Option String
    → Option String
    → TaskStep
    → String
    → ℕ
    → List TaskStep
    → Tables
    → Result TaskStep StepError × Tables
unfolding stream_id unless_known find_task_step_by_key
add_task_step name user agent step key now others t = elim (stream_id name user agent t) [
  | err e ↦ (err e, t)
  | ok sid ↦
      unless_known (linked_to sid key now step) others
        (find_task_step_by_key step.idempotency_key t.steps) t
]

unfoldable pub is_pending : TaskStepStatus → Bool
is_pending pending = true
is_pending _ = false

unfoldable pub sets_completed : TaskStepStatus → Bool
sets_completed completed = true
sets_completed failed = true
sets_completed skipped = true
sets_completed _ = false

abbrev pub first_start : Option ℕ → ℕ → Option ℕ
first_start none now = some now
first_start (some t) now = some t

-- The `SET` clauses of the update.
unfoldable pub set_step : TaskStepStatus → Option String → Option String → ℕ → TaskStep → TaskStep
unfolding is_pending sets_completed
set_step status result error now s = record s {
  status = status;
  result = result;
  error = error;
  started_at = if is_pending status then s.started_at else first_start s.started_at now;
  completed_at = if sets_completed status then some now else s.completed_at;
}

unfoldable pub update_steps :
    String → TaskStepStatus → Option String → Option String → ℕ → List TaskStep → List TaskStep
unfolding set_step
update_steps key status result error now [] = []
update_steps key status result error now (s ∷ rest) =
    (if s.idempotency_key == key then set_step status result error now s else s)
    ∷ update_steps key status result error now rest

unfoldable pub update_task_step_status :
    String
    → TaskStepStatus
    → Option String
    → Option String
    → ℕ
    → Tables
    → Result TaskStep StepError × Tables
unfolding update_steps or_existing find_task_step_by_key
update_task_step_status key status result error now t =
    let rows = update_steps key status result error now t.steps in
    (or_existing key (find_task_step_by_key key rows), with_steps t rows)

abbrev pub is_of : String → Option String → Bool
is_of sid none = false
is_of sid (some i) = i == sid

-- `ORDER BY ordinal ASC`; `tie` is the order that the database gives steps with one ordinal.
abbrev pub by_ordinal : (TaskStep → TaskStep → Bool) → TaskStep → TaskStep → Bool
by_ordinal tie s r = if eqb s.ordinal r.ordinal then tie s r else leb s.ordinal r.ordinal

abbrev pub steps_of : String → Tables → List TaskStep
steps_of sid t = keep (λ s. is_of sid s.task_stream_id) t.steps

unfoldable pub get_task_steps :
    (TaskStep → TaskStep → Bool)
    → String
    → Option String
    → Option String
    → Tables
    → Result (List TaskStep) StepError
unfolding stream_id sort_by
get_task_steps tie name user agent t = elim (stream_id name user agent t) [
  | err e ↦ err e
  | ok sid ↦ ok (sort_by (by_ordinal tie) (steps_of sid t))
]

abbrev pub first_of : List TaskStep → Option TaskStep
first_of [] = none
first_of (s ∷ rest) = some s

-- `status NOT IN ['completed', 'skipped']`, on the text of the column.
unfoldable pub is_open : TaskStep → Bool
unfolding as_str
is_open s = not (as_str s.status == "completed" || as_str s.status == "skipped")

unfoldable pub get_current_step :
    (TaskStep → TaskStep → Bool)
    → String
    → Option String
    → Option String
    → Tables
    → Result (Option TaskStep) StepError
unfolding stream_id sort_by is_open
get_current_step tie name user agent t = elim (stream_id name user agent t) [
  | err e ↦ err e
  | ok sid ↦ ok (
      first_of
        (sort_by (by_ordinal tie) (keep (λ s. is_of sid s.task_stream_id && is_open s) t.steps)))
]

abbrev pub is_completed : TaskStepStatus → Bool
is_completed completed = true
is_completed _ = false

-- `others` is what other callers do between the read and the update, which does not look at the
-- status again.
unfoldable pub complete_found :
    String
    → Option String
    → ℕ
    → (Tables → Tables)
    → Option TaskStep
    → Tables
    → Result TaskStep StepError × Tables
unfolding update_task_step_status
complete_found key result now others none t = (err (step_not_found key), t)
complete_found key result now others (some existing) t =
    if is_completed existing.status
    then (ok existing, t)
    else update_task_step_status key completed result none now (others t)

unfoldable pub complete_step :
    String → Option String → ℕ → (Tables → Tables) → Tables → Result TaskStep StepError × Tables
unfolding complete_found find_task_step_by_key
complete_step key result now others t =
    complete_found key result now others (find_task_step_by_key key t.steps) t
