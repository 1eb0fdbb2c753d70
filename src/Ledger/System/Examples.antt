-- ===== src/Ledger/System/Examples.antt =====
-- A small environment in which every call succeeds, and runs of the ledger in it.
use surreal_memory_server.Common.{ℕ, ◌+◌, String, ◌≡◌, refl, false, none, some, List, [], ◌∷◌}
use surreal_memory_server.Ledger.State.{committed, is_terminal}
use surreal_memory_server.Ledger.Types.{OperationRequest, Operation, Outcome, World, other, refused}
use surreal_memory_server.Ledger.Monad.{ok, err}
use surreal_memory_server.Ledger.Env.{Env}
use surreal_memory_server.Ledger.Aggregate.{Floats}
use surreal_memory_server.Ledger.System.{Call, submission, woken, empty, run, perform}
use surreal_memory_server.Common.Text.{
  is_whitespace, is_empty, is_blank, trim_start, trim_end, trim, take, count,
}
use surreal_memory_server.Common.Sort.{insert_sorted, sort_by, sort, dedup}
use surreal_memory_server.Ledger.State.{as_str, is_terminal, parse_state}
use surreal_memory_server.Ledger.Monad.{
  pure, raise, gets, attempt, lift, modify, ◌>>=◌, next_outcome, fetch_answered, fetch,
  write_answered, write, call,
}
use surreal_memory_server.Ledger.Queries.{to_receipt, find, update, find_key, has_event, events_of}
use surreal_memory_server.Ledger.Transition.{
  receipt_of, or_missing, get, publish, wake, set_state, event_of, apply_transition, get_db,
  commit_transition, transition,
}
use surreal_memory_server.Ledger.Request.{known_kind, check_hash, validate}
use surreal_memory_server.Ledger.Submit.{
  new_operation, accepted_event, create_operation, same_hash, replay, lost_race, after_create,
  known_or_new, submit_checked, submit,
}
use surreal_memory_server.Ledger.Operator.{
  bounded_error, retry, memory_stored, rejected_or, reject_unless_stored, reject_found, reject_idle,
  reject,
}
use surreal_memory_server.Ledger.Payload.{
  check_add_memory, check_create_task_stream, check_add_task_step, check_complete_step,
  check_rekey_agent_id, validate_payload,
}
use surreal_memory_server.Ledger.Plan.{
  parts_of, planned_part, insert_parts, set_indexed, part_differs, plan_differs, contiguous,
  validate_stored_plan, set_snapshot, insert_plan, operation_parts, persist_rows, persist_plan,
  mark_part_indexed, store_snapshot, persist_executor_snapshot,
}
use surreal_memory_server.Ledger.Aggregate.{
  zeros, add_into, sum_parts, sum_squares, normalize, finish_mean, first_dimension, aggregate_from,
  aggregate_embeddings,
}
use surreal_memory_server.Ledger.Settle.{
  blockers_among, dependency_blockers, pause_found, record_processing_error, or_record,
  reject_permanent_failure, commit, finish_from, finish_operation,
}
use surreal_memory_server.Ledger.AddMemory.{
  is_finished, last_token, token_count_of, or_permanent, snapshot_of, plan_parts, embed_part,
  embed_parts, to_planned, to_processing, store_memory, planned_or_stored, embed_when_processing,
  embed_and_store, process_add_memory,
}
use surreal_memory_server.Ledger.TaskOperation.{
  schedule, begin, create_unless_there, run_create_task_stream, run_add_task_step,
  run_complete_step, run_rekey_agent_id, run_kind, process_task_operation,
}
use surreal_memory_server.Ledger.Process.{
  execute, validate_then, unblocked, keep_blocked, by_blockers, process_row, process,
}
use surreal_memory_server.Ledger.Drain.{
  ids_in, ids_in_states, list_nonterminal_ids, remedy, enqueue, apply_remedy, after_process,
  drain_one, rescanned, drain_round, drain, drain_pending, reconcile_nonterminal,
}

abbrev pub naturals : Floats ℕ
naturals = record {
  zero_f = 0;
  add = λ a b. a + b;
  div = λ a b. a;
  mul = λ a b. a;
  sqrt = λ a. a;
  of_usize = λ n. n;
  positive = λ a. false;
}

abbrev pub sample : Env String ℕ Unit
sample = record {
  record_key = λ s. s;
  render = λ e. "failed";
  add_memory_of = λ v. some (record {
    content = v;
    user_id = none;
    agent_id = none;
    session_id = none;
    categories = none;
  });
  create_task_stream_of =
      λ v. some (record { name = v; description = none; agent_id = none; user_id = none });
  add_task_step_of = λ v. none;
  complete_step_of = λ v. none;
  rekey_agent_id_of = λ v. none;
  has_memory = λ k s. (ok false, s);
  store_indexed_memory = λ k r e n s. (ok "stored", s);
  get_task_stream = λ name a u s. (ok none, s);
  create_task_stream = λ p s. (ok p.name, s);
  add_task_step = λ p s. (err (other "no step"), s);
  complete_step = λ p s. (err (other "no step"), s);
  rekey_unattributed_agent_id = λ p s. (err (other "no rekey"), s);
  prepare_operation = λ id n s. (ok tt, s);
  plan_for_operation = λ id content s. (
    ok (
        record {
          part_index = 0;
          token_start = 0;
          token_end = 3;
          token_count = 3;
          token_hash = "h";
          content = content;
        }
        ∷ []),
    s,
  );
  embed_for_operation = λ id k content s. (ok (1 ∷ 2 ∷ []), s);
  executor_snapshot_for_operation = λ id s. none;
}

abbrev pub request : String → String → List String → OperationRequest String
request id kind dependencies = record {
  operation_id = id;
  schema_version = 2;
  kind = kind;
  dependencies = dependencies;
  payload_hash = "text";
  payload = "text";
}

-- A memory that waits for a task stream; the first answers of the database fail.
abbrev pub calls : List (Call String)
calls =
    submission (request "stream" "create_task_stream" [])
    ∷ submission (request "stream" "create_task_stream" [])
    ∷ submission (request "memory" "add_memory" ("stream" ∷ []))
    ∷ woken 8 ("memory" ∷ "stream" ∷ [])
    ∷ []

abbrev pub answers : List Outcome
answers = refused (other "connection reset") ∷ []

abbrev pub end : World String ℕ Unit
end = run sample naturals some calls (empty answers tt)

abbrev pub memory : Operation String
memory = record {
  operation_id = "memory";
  schema_version = 2;
  kind = "add_memory";
  dependencies = "stream" ∷ [];
  payload_hash = "text";
  payload = "text";
  state = committed;
  blocked_by = [];
  result = some "stored";
  error = none;
  executor_generation = 0;
  executor_progress_seq = 0;
  executor_exit_count = 0;
  executor_last_exit = none;
  executor_error = none;
  progress_seq = 7;
}

pub memory_found : find "memory" end.tables.operations ≡ some memory
unfolding run perform is_whitespace is_empty is_blank trim_start trim_end trim take count
    insert_sorted sort_by sort dedup as_str is_terminal parse_state pure raise gets attempt lift
    modify ◌>>=◌ next_outcome fetch_answered fetch write_answered write call to_receipt find update
    find_key has_event events_of receipt_of or_missing get publish wake set_state event_of
    apply_transition get_db commit_transition transition known_kind check_hash validate
    new_operation accepted_event create_operation same_hash replay lost_race after_create
    known_or_new submit_checked submit bounded_error retry memory_stored rejected_or
    reject_unless_stored reject_found reject_idle reject check_add_memory check_create_task_stream
    check_add_task_step check_complete_step check_rekey_agent_id validate_payload parts_of
    planned_part insert_parts set_indexed part_differs plan_differs contiguous validate_stored_plan
    set_snapshot insert_plan operation_parts persist_rows persist_plan mark_part_indexed
    store_snapshot persist_executor_snapshot zeros add_into sum_parts sum_squares normalize
    finish_mean first_dimension aggregate_from aggregate_embeddings blockers_among
    dependency_blockers pause_found record_processing_error or_record reject_permanent_failure
    commit finish_from finish_operation is_finished last_token token_count_of or_permanent
    snapshot_of plan_parts embed_part embed_parts to_planned to_processing store_memory
    planned_or_stored embed_when_processing embed_and_store process_add_memory schedule begin
    create_unless_there run_create_task_stream run_add_task_step run_complete_step
    run_rekey_agent_id run_kind process_task_operation execute validate_then unblocked keep_blocked
    by_blockers process_row process ids_in ids_in_states list_nonterminal_ids remedy enqueue
    apply_remedy after_process drain_one rescanned drain_round drain drain_pending
    reconcile_nonterminal
memory_found = refl

-- The ledger after one submission.
abbrev pub stream_request : OperationRequest String
stream_request = request "stream" "create_task_stream" []

abbrev pub begun : World String ℕ Unit
begun = record {
  tables = record {
    operations = new_operation stream_request ∷ [];
    events = accepted_event stream_request ∷ [];
    parts = [];
  };
  outcomes = [];
  published = accepted_event stream_request ∷ [];
  wakes = "stream" ∷ [];
  in_flight = none;
  store = tt;
}

pub begun-run : run sample naturals some (submission stream_request ∷ []) (empty [] tt) ≡ begun
unfolding run perform known_kind check_hash validate new_operation accepted_event create_operation
    same_hash replay lost_race after_create known_or_new submit_checked submit receipt_of or_missing
    get publish wake pure raise gets attempt lift modify ◌>>=◌ next_outcome fetch_answered fetch
    write_answered write call to_receipt find find_key has_event is_blank is_whitespace
begun-run = refl
