-- ===== src/Tasks/Examples.antt =====
-- Runs of the operations on task streams, and the theorems on them at one stream.
use surreal_memory_server.Common.{
  All, List, false, ℕ, String, Bool, true, none, some, [], ◌∷◌, leb, ok, ◌≡◌, refl, ◌⊎◌,
}
use surreal_memory_server.Memory.Rows.{Memory, Store}
use surreal_memory_server.Tasks.Stream.{TaskStream, active, needs_summarization}
use surreal_memory_server.Tasks.Step.{TaskStep, pending, running, completed}
use surreal_memory_server.Tasks.Steps.{
  Tables, stream_id, linked_to, set_step, find_task_step_by_key, is_completed,
  update_task_step_status, add_task_step, complete_step, get_task_steps, get_current_step,
}
use surreal_memory_server.Tasks.Steps.Replay.{add_task_step-replay, complete_step-replay}
use surreal_memory_server.Tasks.Steps.Calls.{StepCall, updates, completes, run_calls}
use surreal_memory_server.Tasks.Steps.Calls.Kept.{IsSameStep}
use surreal_memory_server.Tasks.Steps.Current.{IsAnswer, get_current_step-first}
use surreal_memory_server.Tasks.Context.{ContextWindow, get_context_for_task, live_memories_of}
use surreal_memory_server.Tasks.Context.Filled.{
  FitsBudget, IsLiveOf, get_context_for_task-FitsBudget,
}

abbrev release : TaskStream
release = record {
  id = some "task_stream:1";
  name = "release";
  description = none;
  agent_id = some "builder";
  user_id = none;
  status = active;
  total_tokens = 4800;
  model_id = none;
  auto_summarize = true;
  summary_count = 0;
  created_at = 1;
  last_active = 1;
}

-- 4800 tokens are 80% of the budget of the default profile.
release_is_full : needs_summarization release ≡ true
unfolding needs_summarization
release_is_full = refl

abbrev step_of : ℕ → String → TaskStep
step_of ordinal key = record {
  id = none;
  task_stream_id = none;
  ordinal = ordinal;
  name = "work";
  description = none;
  status = pending;
  idempotency_key = key;
  result = none;
  error = none;
  started_at = none;
  completed_at = none;
  created_at = 0;
}

abbrev stored : ℕ → String → String → TaskStep
stored ordinal key id = linked_to "task_stream:1" id 5 (step_of ordinal key)

abbrev tables : Tables
tables = record {
  streams = release ∷ [];
  steps = stored 3 "publish" "s3" ∷ stored 1 "build" "s1" ∷ stored 2 "test" "s2" ∷ [];
}

abbrev with_tag : Tables
with_tag = record tables {
  steps =
      stored 3 "publish" "s3"
      ∷ stored 1 "build" "s1"
      ∷ stored 2 "test" "s2"
      ∷ stored 4 "tag" "s4"
      ∷ [];
}

added :
    add_task_step "release" none (some "builder") (step_of 4 "tag") "s4" 5 [] tables
    ≡ (ok (stored 4 "tag" "s4"), with_tag)
unfolding add_task_step
added = refl

-- Another caller wins the race for the key: its step is the answer.
race_lost :
    (add_task_step "release" none none (step_of 4 "tag") "s4" 5 (stored 9 "tag" "s9" ∷ []) tables).0
    ≡ ok (stored 9 "tag" "s9")
unfolding add_task_step
race_lost = refl

-- Afterwards the step is completed.
abbrev released : List StepCall
released = completes "tag" (some "v1") 6 ∷ []

add_task_step-replay_example :
    (s : TaskStep) × IsSameStep (stored 4 "tag" "s4") s
    × (find_task_step_by_key "tag" (run_calls released with_tag).steps ≡ some s)
    × (add_task_step "release" none
          (some "builder")
          (step_of 8 "tag")
          "s8"
          9
          []
          (run_calls released with_tag)
        ≡ (ok s, run_calls released with_tag))
add_task_step-replay_example =
    add_task_step-replay "release" none (some "builder") (step_of 4 "tag") (stored 4 "tag" "s4")
      (step_of 8 "tag") "s4" "s8" 5 9 [] [] tables with_tag released added refl

-- The answer after the completion is the completed step.
replayed_later :
    (add_task_step "release" none
      (some "builder")
      (step_of 8 "tag")
      "s8"
      9
      []
      (run_calls released with_tag)).0
    ≡ ok (set_step completed (some "v1") none 6 (stored 4 "tag" "s4"))
unfolding add_task_step complete_step
replayed_later = refl

abbrev built : Tables
built = record tables {
  steps =
      stored 3 "publish" "s3"
      ∷ set_step completed (some "ok") none 7 (stored 1 "build" "s1")
      ∷ stored 2 "test" "s2"
      ∷ [];
}

abbrev built_step : TaskStep
built_step = set_step completed (some "ok") none 7 (stored 1 "build" "s1")

completed_once : complete_step "build" (some "ok") 7 (λ u. u) tables ≡ (ok built_step, built)
unfolding complete_step
completed_once = refl

-- Another step is updated, and this one completed again.
abbrev meanwhile : List StepCall
meanwhile = updates "test" running none none 8 ∷ completes "build" (some "late") 8 ∷ []

complete_step-replay_example :
    (complete_step "build" (some "again") 9 (λ u. u) (run_calls meanwhile built)
      ≡ (ok built_step, run_calls meanwhile built))
    × (is_completed built_step.status ≡ true)
    × ((find_task_step_by_key "build" tables.steps ≡ some built_step)
        ⊎ ((built_step.result ≡ some "ok") × (built_step.completed_at ≡ some 7)))
complete_step-replay_example =
    complete_step-replay "build" (some "ok") (some "again") 7 9 (λ u. u) (λ u. u) tables built
      built_step meanwhile completed_once (refl, (tt, tt))

-- A step that is set running again is completed again, with the new result.
completed_after_update :
    (complete_step "build"
      (some "again")
      9
      (λ u. u)
      (run_calls (updates "build" running none none 8 ∷ []) built)).0
    ≡ ok (set_step completed (some "again") none 9 (set_step running none none 8 built_step))
unfolding complete_step update_task_step_status
completed_after_update = refl

-- Of two completions that both read the open step, the one that writes last sets the result.
completed_twice :
    (complete_step "build"
      (some "second")
      8
      (λ t. (complete_step "build" (some "first") 7 (λ u. u) t).1)
      tables).0
    ≡ ok (
        set_step completed
          (some "second")
          none
          8
          (set_step completed (some "first") none 7 (stored 1 "build" "s1")))
unfolding complete_step
completed_twice = refl

abbrev keep_order : TaskStep → TaskStep → Bool
keep_order s r = true

get_current_step-first_example :
    IsAnswer built.steps
      (stream_id "release" none none built)
      (get_current_step keep_order "release" none none built)
get_current_step-first_example = get_current_step-first keep_order "release" none none built

current_run :
    get_current_step keep_order "release" none none built ≡ ok (some (stored 2 "test" "s2"))
unfolding get_current_step set_step
current_run = refl

-- Two steps with one ordinal stand in either order.
ordered_by_tie :
    get_task_steps
      (λ s r. false)
      "release"
      none
      none
      (record tables { steps = stored 1 "build" "s1" ∷ stored 1 "test" "s2" ∷ [] })
    ≡ ok (stored 1 "test" "s2" ∷ stored 1 "build" "s1" ∷ [])
unfolding get_task_steps
ordered_by_tie = refl

abbrev note : String → ℕ → ℕ → Memory
note content tokens importance = record {
  id = none;
  content = content;
  embedding = none;
  user_id = none;
  session_id = none;
  agent_id = none;
  task_stream_id = some "task_stream:1";
  token_count = some tokens;
  importance = importance;
  status = none;
  valid_until = none;
  version = 1;
  created_at = 0;
  updated_at = 0;
}

abbrev notes : Store
notes = record {
  memories = note "long" 80 5 ∷ note "small" 30 9 ∷ note "tiny" 10 1 ∷ [];
  history = [];
}

abbrev window : ContextWindow
window = record {
  memories = note "small" 30 9 ∷ note "tiny" 10 1 ∷ [];
  tokens_used = 40;
  memories_omitted = 1;
  model_name = "gpt-4o";
  token_budget = 100;
}

abbrev by_importance : Memory → Memory → Bool
by_importance m n = leb n.importance m.importance

window_lem :
    get_context_for_task by_importance "release" none none "gpt-4o" (some 100) 5 tables notes
    ≡ ok window
unfolding get_context_for_task
window_lem = refl

get_context_for_task-FitsBudget_example :
    (sid : String) × (stream_id "release" none none tables ≡ ok sid)
    × FitsBudget (live_memories_of by_importance sid 5 notes) (some 100) "gpt-4o" window
    × All (IsLiveOf sid 5) window.memories
get_context_for_task-FitsBudget_example =
    get_context_for_task-FitsBudget by_importance "release" none none "gpt-4o" (some 100) 5 tables
      notes window window_lem
