-- ===== src/Tasks/Context.antt =====
-- The choice of memories for a prompt, `get_context_for_task` of
-- crates/surreal-memory/src/storage/surreal.rs.
pub mod Filled
use surreal_memory_server.Common.{
  ℕ, String, Bool, true, false, Option, none, some, List, [], ◌∷◌, ◌++◌, ◌+◌, ◌/◌, ◌%◌, ◌^◌, ◌&&◌,
  keep, Result, ok, err, leb, if◌then◌else◌,
}
use surreal_memory_server.Common.Words.{starts_with}
use surreal_memory_server.Common.Sort.{sort_by}
use surreal_memory_server.Memory.Rows.{Memory, Store, estimate_tokens, is_live}
use surreal_memory_server.Tasks.Steps.{Tables, StepError, stream_id, is_of}

pub record ContextWindow : Type 0 where
  pub memories : List Memory
  pub tokens_used : ℕ
  pub memories_omitted : ℕ
  pub model_name : String
  pub token_budget : ℕ

abbrev pub default_context_budget : ℕ
default_context_budget = 100000

unfoldable pub model_context_budget : String → ℕ
unfolding starts_with
model_context_budget m =
    if starts_with m "gpt-4o"
    then 120000
    else if starts_with m "gpt-4"
    then 120000
    else if starts_with m "claude-3"
    then 180000
    else if starts_with m "gemini-2"
    then 900000
    else if starts_with m "gemini-1.5"
    then 900000
    else default_context_budget

unfoldable pub tokens_of : Memory → ℕ
unfolding estimate_tokens
tokens_of m = elim m.token_count [ some n ↦ n | none ↦ estimate_tokens m.content ]

-- The memories included, the tokens used and the memories left out.
unfoldable pub fill : ℕ → List Memory → List Memory → ℕ → ℕ → List Memory × ℕ × ℕ
unfolding tokens_of
fill budget [] included used omitted = (included, used, omitted)
fill budget (m ∷ rest) included used omitted =
    let taken = fill budget rest (included ++ m ∷ []) (used + tokens_of m) omitted in
    let left = fill budget rest included used (omitted + 1) in
    if leb (used + tokens_of m) budget then taken else left

abbrev pub budget_of : Option ℕ → String → ℕ
budget_of (some n) model = n
budget_of none model = model_context_budget model

unfoldable pub get_context : List Memory → String → Option ℕ → ContextWindow
unfolding fill model_context_budget
get_context rows model max_tokens =
    let budget = budget_of max_tokens model in
    let (included, used, omitted) = fill budget rows [] 0 0 in
    record {
      memories = included;
      tokens_used = used;
      memories_omitted = omitted;
      model_name = model;
      token_budget = budget;
    }

-- The live memories of the stream; `earlier` is the order of the query, by importance and then by
-- the moment of creation, both descending.
unfoldable pub live_memories_of : (Memory → Memory → Bool) → String → ℕ → Store → List Memory
unfolding sort_by is_live
live_memories_of earlier sid now s =
    sort_by earlier (keep (λ m. is_of sid m.task_stream_id && is_live m now) s.memories)

unfoldable pub get_context_for_task :
    (Memory → Memory → Bool)
    → String
    → Option String
    → Option String
    → String
    → Option ℕ
    → ℕ
    → Tables
    → Store
    → Result ContextWindow StepError
unfolding stream_id live_memories_of get_context
get_context_for_task earlier name user agent model max_tokens now t s =
    elim (stream_id name user agent t) [
      | err e ↦ err e
      | ok sid ↦ ok (get_context (live_memories_of earlier sid now s) model max_tokens)
    ]
