-- ===== src/Tasks/Steps/Calls.antt =====
-- Any sequence of calls on steps: `add_task_step`, `update_task_step_status` and `complete_step` of
-- crates/surreal-memory/src/storage/surreal.rs.
pub mod Rows
pub mod Kept
use surreal_memory_server.Common.{
  ℕ, String, true, false, All, Option, none, some, List, [], ◌∷◌, ◌++◌, Result, ok, err, ◌==◌,
  eq_iff, ◌≡◌, refl, sym, ap, subst, ◌∙◌, inl, inr, Bool-cases,
}
use surreal_memory_server.Tasks.Step.{TaskStep, TaskStepStatus, completed}
use surreal_memory_server.Tasks.Steps.{
  Tables, StepError, stream_id, find_task_step_by_key, create_step, create_all, insert_step,
  unless_known, add_task_step, set_step, update_steps, update_task_step_status, complete_found,
  complete_step, is_completed,
}

-- One call. An addition has the steps that others create between its check and its insertion. A
-- completion that others come between stands as the update that it is after its read.
pub data StepCall : Type 0 where
  adds : String → Option String → Option String → TaskStep → String → ℕ → List TaskStep → StepCall
  updates : String → TaskStepStatus → Option String → Option String → ℕ → StepCall
  completes : String → Option String → ℕ → StepCall

abbrev pub run_call : StepCall → Tables → Tables
run_call (adds name user agent step key now others) t =
    (add_task_step name user agent step key now others t).1
run_call (updates key status result error now) t =
    (update_task_step_status key status result error now t).1
run_call (completes key result now) t = (complete_step key result now (λ u. u) t).1

abbrev pub run_calls : List StepCall → Tables → Tables
run_calls [] t = t
run_calls (c ∷ cs) t = run_calls cs (run_call c t)

-- No update of the step with a key, the completions aside.
abbrev pub Spares : String → StepCall → Type 0
Spares key (adds name user agent step k now others) = Unit
Spares key (updates k status result error now) = (k == key) ≡ false
Spares key (completes k result now) = Unit
