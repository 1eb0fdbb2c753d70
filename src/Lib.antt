-- ===== src/Lib.antt =====
-- The core of surreal-memory-server: the operation ledger of src/operations.rs, which takes the
-- durable operations of clients, the verified callers of src/auth, and of crates/surreal-memory the
-- compression of memories, the writes on memories, task streams with their steps, and mind maps.
-- The handlers of src/api and src/mcp also write to the storage directly, past the ledger.
--
-- The parts. A client submits an operation (an id, a kind, a payload and the ids that it depends
-- on). The ledger writes it as a row with a first event and wakes the coordinator, one task that
-- takes each operation through its states: it waits for the dependencies, checks the payload,
-- plans and embeds a memory or calls the storage of task streams, and commits the result. Each
-- change of state is one transaction on the row and on a new event. An operator may retry or
-- reject an operation; a client may follow its events. Calls on the database may fail before they
-- take effect, or take effect without an answer.
--
-- Compression turns memories into a summary of claims: a summarizer proposes claims with quotes, and
-- the gate accepts those whose quotes stand in the sources, merges equivalent ones, decides which
-- may act as guidance, and drops unprotected claims until the summary is within its budget. The
-- storage reads, updates and deletes memories while other callers act, hides expired ones and sweeps
-- them; each write on a memory leaves an entry in its history. A write that the database refuses as
-- conflicting is sent again, and an operation that loses its connection is tried on another one.
-- A task stream has ordered steps, whose creation and completion may be sent again.
--
-- The files.
--   Common          tests on numbers, lists, texts as Rust's `str` treats them, sorting.
--   Auth            `TenantId` and `Principal` of src/auth/mod.rs; Auth/Access has `authenticate`
--                   of src/auth/access.rs; Auth/Access/Paths and Verdicts
--                   describe its answers.
--   Ledger/State, Types, Queries, Monad
--                   the states, the rows and the statements; an `async` method is a function of
--                   the world (`World`), where each database call takes the next of a list of
--                   outcomes, so that a theorem for all lists is one for all failures.
--   Ledger/Transition, Request, Submit, Operator
--                   `transition`, `OperationRequest::validate`, `submit`, `retry` and `reject`.
--   Ledger/Env, Payload, Plan, Aggregate, Changes, Settle, AddMemory, TaskOperation, Process, Drain
--                   the coordinator: `validate_payload`, `persist_plan`, `aggregate_embeddings`,
--                   `dependency_blockers`, `record_processing_error`, `finish_operation`,
--                   `process_add_memory`, `process_task_operation`, `process`, `drain_pending`,
--                   `reconcile_nonterminal` and the start of `run`.
--   Ledger/Stream, Connection, Http
--                   `event_stream`; the replacement of a dead connection (`await_database`); the
--                   handlers that submit, retry and reject.
--   Ledger/Lifecycle, Journal, Sound, Safe
--                   the description that the code is held to: the edges between states, the
--                   history of an operation, the invariant with the order in which tables grow,
--                   and rules for what an action keeps under every outcome. A module named Sound
--                   below a component has that component's part.
--   Ledger/System   any sequence of calls from an empty ledger.
--   Compression/Contract, Status, Text, Wording, Extract, Lineage, Promotion
--                   crates/surreal-memory/src/compression: contract.rs, text.rs, the cues and
--                   `extract_candidates` of summarizer.rs, `independent_roots`, `decide`.
--   Compression/Gate
--                   gate.rs: Validate has `validate`, Merge the loop over the candidates and
--                   `merge_equivalent`, Budget `render` and the loop that drops claims, Run `run`.
--   Memory/Rows, Update, Owned, Expiry
--                   crates/surreal-memory/src/storage: the reads, `update_memory` and
--                   `delete_memory` of surreal.rs, surreal/owned.rs and surreal/expiry.rs. A call is
--                   a function of the tables, and of what other callers do to them between its
--                   read and its transaction.
--   Memory/Add      `add_memory` of surreal.rs, given what the vector search finds.
--   Memory/Audit    the description that the writes on memories are held to: the last entry of the
--                   history for an id agrees with its row.
--   Retry           `select_statement_error`, `write_retrying_conflicts` and
--                   `classify_surreal_error` of surreal.rs; Retry/Operation has
--                   `retry_operation_inner` and `reconnect_with_attempts`.
--   Tasks/Stream, Step, Steps, Context
--                   task_stream.rs, task_step.rs and model_profiles.rs with the operations of
--                   storage/surreal.rs on steps, and `get_context_for_task`.
--   Mindmap         mindmap.rs: `validate` and `depth_of`.
--   Codecs          the names of the enums above.
--
-- Bounds. The loop of `drain_pending` runs on fuel. The theorems on reached ledgers hold for every
-- fuel, so also for a coordinator that is stopped after any number of its rounds. Sequence
-- numbers and generations are unbounded but for the generation of a connection, which saturates
-- at 2 ^ 64 - 1. The loop of the gate runs on fuel, one round more than there are claims, since each
-- round drops one. The loop of a write under retries has the source's cap of 16, and `depth_of` its
-- own cap.
--
-- Not modelled. Calls follow one another in `System`; the race of two writers for one row is in
-- `Commit`, and that for one new id in the second branch of `submit`. SHA-256 enters as
-- `record_key`, which is taken to be injective, and as `payload_hash`. For the ledger, the memory
-- storage, the embedding service, `f32` and the JSON codec are parameters; the verifier of tokens
-- is one of `authenticate`. Time stamps, statistics and the executor's own events are left out.
-- Unicode's tables, SHA-256 and doubles are the parameter `Platform` of the compression. The
-- statements of `Tasks` and the reads of `Memory` are answered by the database, in any order of
-- steps with one ordinal; the sweep has the answers of each deletion as an argument. The vectors
-- of memories are bits, their search is left out, as are the graph, the migrations, the deadline
-- and the waits of the retries, the providers, and the REST and MCP glue.
pub mod Auth
pub mod Codecs
pub mod Common
pub mod Compression
pub mod Ledger
pub mod Memory
pub mod Mindmap
pub mod Retry
pub mod Tasks
