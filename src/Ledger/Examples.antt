-- ===== src/Ledger/Examples.antt =====
-- The theorems on the ledger's operations at concrete inputs.
use surreal_memory_server.Common.{
  ◌↔◌, All, ℕ, ◌+◌, ◌≤◌, String, ◌≡◌, refl, ap, subst, true, false, none, some, List, [], ◌∷◌, All,
  arith,
}
use surreal_memory_server.Common.Text.{
  is_blank, is_whitespace, trim, trim_start, trim_end, is_empty,
}
use surreal_memory_server.Auth.{local}
use surreal_memory_server.Ledger.State.{
  committed, as_str, parse_state, parse_state-as_str, accepted, validated, blocked, is_terminal,
}
use surreal_memory_server.Ledger.Types.{
  other, Event, Operation, Part, PartState, contract_validated, deadline_exceeded, World,
}
use surreal_memory_server.Ledger.Plan.{contiguous, validate_stored_plan}
use surreal_memory_server.Ledger.Plan.Contiguous.{validate_stored_plan-get_elem?}
use surreal_memory_server.Ledger.Settle.{record_processing_error}
use surreal_memory_server.Ledger.Settle.Repeats.{record_processing_error-repeats}
use surreal_memory_server.Ledger.Process.{process}
use surreal_memory_server.Ledger.Process.Commits.{process-commits}
use surreal_memory_server.Ledger.Payload.{validate_payload, check_create_task_stream}
use surreal_memory_server.Ledger.TaskOperation.{
  run_kind, run_create_task_stream, create_unless_there,
}
use surreal_memory_server.Ledger.AddMemory.{or_permanent}
use surreal_memory_server.Ledger.Monad.{lift, call, pure, ◌>>=◌, ok}
use surreal_memory_server.Ledger.Queries.{to_receipt, find}
use surreal_memory_server.Ledger.Transition.{Change, apply_transition, transition}
use surreal_memory_server.Ledger.Journal.{Journal}
use surreal_memory_server.Ledger.Commit.{stale-transition_aborts}
use surreal_memory_server.Ledger.Served.{transition-sets}
use surreal_memory_server.Ledger.Sound.{Sound}
use surreal_memory_server.Ledger.Request.{validate, check_hash, known_kind}
use surreal_memory_server.Ledger.Request.Valid.{HasText, IsKind, validate_accepts_iff}
use surreal_memory_server.Ledger.Submit.{receipt, new_operation, accepted_event, submit}
use surreal_memory_server.Ledger.Submit.Replies.{
  Truthful, first_row, first_receipt, first_event, submit-adds, submit-new, submit-Truthful,
  submit-repeats,
}
use surreal_memory_server.Ledger.Operator.{being_processed, refusal, reject, retry, done}
use surreal_memory_server.Ledger.Operator.Replies.{reject-refused, retry-served}
use surreal_memory_server.Ledger.Http.{answered, failed, submitted, submit_operation}
use surreal_memory_server.Ledger.Http.Permission.{rekey-refused, submit_operation-repeats}
use surreal_memory_server.Ledger.Stream.{event_stream, live, lagged}
use surreal_memory_server.Ledger.Stream.Order.{Rising, event_stream-Rising}
use surreal_memory_server.Ledger.Connection.{
  Link, connected, recover_ledger_connection, connect_next, await_database, Reply, deadline,
}
use surreal_memory_server.Ledger.Connection.Generations.{Fresh, await_database-Fresh}
use surreal_memory_server.Ledger.Aggregate.{
  zeros, add_into, sum_parts, sum_squares, normalize, finish_mean, first_dimension, aggregate_from,
  aggregate_embeddings,
}
use surreal_memory_server.Ledger.Aggregate.Dimension.{
  HasDimension, aggregate_embeddings-HasDimension,
}
use surreal_memory_server.Ledger.System.{empty, empty-Sound, run-Kept, submission}
use surreal_memory_server.Ledger.System.Examples.{
  naturals, sample, request, calls, answers, end, memory, memory_found, stream_request, begun,
  begun-run,
}

parse_state-as_str_example : parse_state (as_str blocked) ≡ some blocked
parse_state-as_str_example = parse_state-as_str blocked

stream_request-valid : validate some stream_request ≡ none
unfolding validate check_hash known_kind is_blank is_whitespace
stream_request-valid = refl

validate_accepts_iff_example : (validate some stream_request ≡ none) ↔ (
    HasText "stream"
    × (stream_request.schema_version ≡ 2)
    × IsKind "create_task_stream"
    × All HasText []
    × (some stream_request.payload ≡ some stream_request.payload_hash))
validate_accepts_iff_example = validate_accepts_iff some stream_request

abbrev fresh_ledger : World String ℕ Unit
fresh_ledger = empty [] tt

fresh_answer :
    submit (λ s. s) some stream_request fresh_ledger
    ≡ (ok (receipt (to_receipt (new_operation stream_request)) true), begun)
unfolding find
fresh_answer =
    submit-adds (λ s. s) some stream_request (empty [] tt) (λ a b e. e) refl
      (empty-Sound [] tt).journal stream_request-valid refl

submit-new_example : submit (λ s. s) some stream_request fresh_ledger ≡ (
  ok (receipt (first_receipt (λ s. s) some stream_request fresh_ledger) true),
  record fresh_ledger {
    tables = record fresh_ledger.tables {
      operations = first_row (λ s. s) some stream_request fresh_ledger ∷ [];
      events = first_event (λ s. s) some stream_request fresh_ledger ∷ [];
    };
    published = first_event (λ s. s) some stream_request fresh_ledger ∷ [];
    wakes = "stream" ∷ [];
  },
)
unfolding find
submit-new_example =
    submit-new (λ s. s) some stream_request fresh_ledger (λ a b e. e) refl
      (empty-Sound [] tt).journal stream_request-valid refl

begun-found : find "stream" begun.tables.operations ≡ some (new_operation stream_request)
unfolding find new_operation
begun-found = refl

submit-Truthful_example :
    Truthful {F = ℕ} {S = Unit}
      (λ s. s)
      some
      stream_request
      (submit (λ s. s) some stream_request (empty answers tt))
submit-Truthful_example =
    submit-Truthful (λ s. s) some stream_request (empty answers tt) (empty-Sound answers tt)

submit-repeats_example :
    ((submit (λ s. s) some stream_request begun).0
      ≡ ok (receipt (to_receipt (new_operation stream_request)) false))
    × ((submit (λ s. s) some stream_request begun).1.tables ≡ begun.tables)
submit-repeats_example =
    submit-repeats (λ s. s) some stream_request (empty [] tt) begun
      (to_receipt (new_operation stream_request)) true (empty-Sound [] tt) fresh_answer refl

first_answer :
    submit_operation (λ s. s) some local none stream_request (empty [] tt)
    ≡ (answered 202 (to_receipt (new_operation stream_request)), begun)
unfolding submit_operation submitted
first_answer = ap submitted fresh_answer

submit_operation-repeats_example :
    ((submit_operation (λ s. s) some local none stream_request begun).0
      ≡ answered 200 (to_receipt (new_operation stream_request)))
    × ((submit_operation (λ s. s) some local none stream_request begun).1.tables ≡ begun.tables)
submit_operation-repeats_example =
    submit_operation-repeats (λ s. s) some local none stream_request (empty [] tt) begun 202
      (to_receipt (new_operation stream_request)) (empty-Sound [] tt) first_answer refl

rekey-refused_example :
    submit_operation (λ s. s) some local none (request "rekey" "rekey_agent_id" []) begun
    ≡ (failed 403, begun)
rekey-refused_example =
    rekey-refused begun (λ s. s) some local none (request "rekey" "rekey_agent_id" []) refl refl

end-Journal : Journal end.tables
end-Journal =
    (run-Kept sample naturals some (λ a b e. e) calls (empty answers tt)
      (empty-Sound answers tt)).0.journal

abbrev validation : Change String
validation = record {
  to = validated;
  blocked_by = [];
  result = none;
  error = none;
  detail = some contract_validated;
}

stale-transition_aborts_example :
    apply_transition
      (λ s. s)
      "memory"
      (record memory { state = accepted; progress_seq = 1 })
      validation
      end.tables
    ≡ none
stale-transition_aborts_example =
    stale-transition_aborts (λ s. s) (λ a b e. e) "memory"
      (record memory { state = accepted; progress_seq = 1 }) memory validation end.tables
      end-Journal memory_found (omega arith)

begun-Sound : Sound begun.tables
begun-Sound =
    subst (λ w. Sound w.tables) begun-run
      (run-Kept sample naturals some (λ a b e. e) (submission stream_request ∷ []) (empty [] tt)
        (empty-Sound [] tt)).0

abbrev validated_row : Operation String
validated_row = record (new_operation stream_request) {
  state = validated;
  blocked_by = [];
  result = none;
  error = none;
  progress_seq = 2;
}

abbrev validated_event : Event
validated_event = record {
  operation_id = "stream";
  sequence = 2;
  from_state = some accepted;
  to_state = validated;
  detail = some contract_validated;
  executor_generation = 0;
}

transition-sets_example :
    ((transition (λ s. s) "stream" validation begun).0 ≡ ok (to_receipt validated_row))
    × (find "stream" (transition (λ s. s) "stream" validation begun).1.tables.operations
        ≡ some validated_row)
    × (find "memory" (transition (λ s. s) "stream" validation begun).1.tables.operations
        ≡ find "memory" begun.tables.operations)
    × ((transition (λ s. s) "stream" validation begun).1 ≡ record begun {
      tables = record begun.tables {
        operations = (transition (λ s. s) "stream" validation begun).1.tables.operations;
        events = validated_event ∷ begun.tables.events;
      };
      published = validated_event ∷ begun.published;
    })
unfolding new_operation is_terminal
transition-sets_example =
    transition-sets (λ s. s) (λ a b e. e) "stream" "memory" (new_operation stream_request)
      validation begun refl begun-Sound.journal begun-found refl refl

retry-served_example : retry sample "stream" begun ≡ (
  ok (done (to_receipt (new_operation stream_request))),
  record begun { wakes = "stream" ∷ begun.wakes },
)
unfolding find new_operation is_terminal
retry-served_example = retry-served sample "stream" begun refl

abbrev busy : World String ℕ Unit
busy = record begun { in_flight = some "stream" }

reject-refused_example :
    reject sample "stream" " mistake " busy ≡ (ok (refusal being_processed), busy)
unfolding trim trim_start trim_end is_empty is_blank is_whitespace
reject-refused_example =
    reject-refused sample "stream" busy " mistake " refl refl being_processed refl

event_stream-Rising_example : Rising 1 (
    event_stream "memory" 1 begun.tables.events
      (live (accepted_event stream_request) ∷ lagged (ok end.tables.events) ∷ []))
event_stream-Rising_example =
    event_stream-Rising "memory" 1 begun.tables.events
      (live (accepted_event stream_request) ∷ lagged (ok end.tables.events) ∷ [])

abbrev third : Link
third = record { published = some 3; replacing = false }

abbrev no_answer : Reply ℕ
no_answer = deadline

await_database-Fresh_example : Fresh 3 (await_database connected 3 no_answer third).1
unfolding await_database recover_ledger_connection connect_next
await_database-Fresh_example =
    await_database-Fresh connected 3 no_answer third (deadline_exceeded true) (omega arith) refl
      refl refl

abbrev part : ℕ → List ℕ → Part ℕ
part k v = record {
  operation_id = "memory";
  part_index = k;
  token_start = k;
  token_end = k + 1;
  token_count = 1;
  token_hash = "h";
  content = "text";
  state = PartState.indexed;
  embedding = some v;
}

abbrev parts : List (Part ℕ)
parts = part 0 (1 ∷ 2 ∷ []) ∷ part 1 (3 ∷ 4 ∷ []) ∷ []

aggregate_embeddings-HasDimension_example : (1 ≤ 2) × All (HasDimension 2) parts
unfolding zeros add_into sum_parts sum_squares normalize finish_mean first_dimension aggregate_from
    aggregate_embeddings
aggregate_embeddings-HasDimension_example =
    aggregate_embeddings-HasDimension naturals parts (4 ∷ 6 ∷ []) refl

process-commits_example :
    (row : Operation String) × (last : World String ℕ Unit) × (process sample naturals "stream"
        begun
      ≡ (ok tt, last))
    × (find "stream" last.tables.operations ≡ some row)
    × (row.state ≡ committed)
    × (row.result ≡ some "text")
unfolding new_operation find validate_payload check_create_task_stream is_blank is_whitespace
    run_kind run_create_task_stream create_unless_there lift or_permanent call pure ◌>>=◌
process-commits_example =
    process-commits sample naturals (λ a b e. e) (new_operation stream_request) "text" tt begun refl
      begun-Sound.journal begun-found refl tt refl refl (λ u e. refl)

validate_stored_plan-get_elem?_example :
    ((part 1 (3 ∷ 4 ∷ [])).part_index ≡ 1)
    × ((part 1 (3 ∷ 4 ∷ [])).token_start + 1 ≡ (part 1 (3 ∷ 4 ∷ [])).token_end)
    × (is_blank (part 1 (3 ∷ 4 ∷ [])).token_hash ≡ false)
unfolding contiguous validate_stored_plan is_blank is_whitespace
validate_stored_plan-get_elem?_example =
    validate_stored_plan-get_elem? parts 1 (part 1 (3 ∷ 4 ∷ [])) refl refl

abbrev failure : World String ℕ Unit
failure = (record_processing_error sample "stream" (other "connection reset") begun).1

record_processing_error-repeats_example :
    record_processing_error sample "stream" (other "connection reset") failure ≡ (ok tt, failure)
record_processing_error-repeats_example =
    record_processing_error-repeats sample (λ a b e. e) "stream" (other "connection reset") begun
      refl begun-Sound.journal
