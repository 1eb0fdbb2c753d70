-- ===== src/Tasks/Stream.antt =====
-- `TaskStream` of crates/surreal-memory/src/task_stream.rs, the profiles of model_profiles.rs, and
-- the look-up and the status change of storage/surreal.rs.
use surreal_memory_server.Common.{
  ℕ, String, Bool, true, false, ◌&&◌, Option, none, some, List, [], ◌∷◌, ◌-◌, ◌*◌, ◌/◌, leb, ◌==◌,
  if◌then◌else◌, Result, ok, err,
}

pub data TaskStreamStatus : Type 0 where
  active paused archived : TaskStreamStatus

unfoldable pub as_str : TaskStreamStatus → String
as_str active = "active"
as_str paused = "paused"
as_str archived = "archived"

-- The error is the text that is no status.
unfoldable pub parse_str : String → Result TaskStreamStatus String
parse_str raw =
    if raw == "active"
    then ok active
    else if raw == "paused"
    then ok paused
    else if raw == "archived"
    then ok archived
    else err raw

pub record TaskStream : Type 0 where
  pub id : Option String
  pub name : String
  pub description : Option String
  pub agent_id : Option String
  pub user_id : Option String
  pub status : TaskStreamStatus
  pub total_tokens : ℕ
  pub model_id : Option String
  pub auto_summarize : Bool
  pub summary_count : ℕ
  pub created_at : ℕ
  pub last_active : ℕ

pub record ModelProfile : Type 0 where
  pub model_id : String
  pub context_window : ℕ
  pub reserved_tokens : ℕ

-- `saturating_sub` is the subtraction that stops at 0.
unfoldable pub budget : ModelProfile → ℕ
budget p = p.context_window - p.reserved_tokens

unfoldable pub summarization_threshold : ModelProfile → ℕ
unfolding budget
summarization_threshold p = budget p * 80 / 100

abbrev of_model : String → ℕ → ℕ → ModelProfile
of_model id window reserved = record {
  model_id = id;
  context_window = window;
  reserved_tokens = reserved;
}

abbrev pub default_profile : ModelProfile
default_profile = of_model "default" 8000 2000

abbrev pub model_profiles : List ModelProfile
model_profiles =
    of_model "claude-3-5-sonnet" 200000 16000
    ∷ of_model "claude-3-haiku" 200000 16000
    ∷ of_model "claude-3-opus" 200000 16000
    ∷ default_profile
    ∷ of_model "gemini-1.5-flash" 1000000 32000
    ∷ of_model "gemini-1.5-pro" 1000000 32000
    ∷ of_model "gemini-2.0-flash" 1000000 32000
    ∷ of_model "gpt-4-turbo" 128000 16000
    ∷ of_model "gpt-4o" 128000 16000
    ∷ of_model "gpt-4o-mini" 128000 16000
    ∷ of_model "llama-3.3-70b" 128000 16000
    ∷ of_model "mistral-large" 32000 4000
    ∷ []

unfoldable pub find_profile : String → List ModelProfile → Option ModelProfile
find_profile id [] = none
find_profile id (p ∷ ps) = if p.model_id == id then some p else find_profile id ps

-- `expect`: the default profile is in the table.
unfoldable pub profile_for : String → ModelProfile
unfolding find_profile
profile_for id = elim (find_profile id model_profiles) [ some p ↦ p | none ↦ default_profile ]

abbrev pub or_default : Option String → String
or_default (some id) = id
or_default none = "default"

unfoldable pub needs_summarization : TaskStream → Bool
unfolding profile_for summarization_threshold
needs_summarization s =
    s.auto_summarize
    && leb (summarization_threshold (profile_for (or_default s.model_id))) s.total_tokens

-- `field = $value`, if a value is given.
unfoldable pub matches : Option String → Option String → Bool
matches none field = true
matches (some v) none = false
matches (some v) (some w) = w == v

abbrev pub is_named : String → Option String → Option String → TaskStream → Bool
is_named name user agent s = s.name == name && matches user s.user_id && matches agent s.agent_id

unfoldable pub get_task_stream :
    String → Option String → Option String → List TaskStream → Option TaskStream
unfolding matches
get_task_stream name user agent [] = none
get_task_stream name user agent (s ∷ rest) =
    if is_named name user agent s then some s else get_task_stream name user agent rest

-- The rows with the new status; the answer is the first that the statement returns.
unfoldable pub set_status :
    String → Option String → Option String → TaskStreamStatus → List TaskStream → List TaskStream
unfolding matches
set_status name user agent status [] = []
set_status name user agent status (s ∷ rest) =
    (if is_named name user agent s then record s { status = status } else s)
    ∷ set_status name user agent status rest

unfoldable pub update_task_stream_status :
    String
    → Option String
    → Option String
    → TaskStreamStatus
    → List TaskStream
    → Option TaskStream × List TaskStream
unfolding set_status get_task_stream
update_task_stream_status name user agent status rows =
    let rows' = set_status name user agent status rows in
    (get_task_stream name user agent rows', rows')

unfoldable pub archive_task_stream :
    String → Option String → Option String → List TaskStream → Option TaskStream × List TaskStream
unfolding update_task_stream_status
archive_task_stream name user agent rows = update_task_stream_status name user agent archived rows

unfoldable pub pause_task_stream :
    String → Option String → Option String → List TaskStream → Option TaskStream × List TaskStream
unfolding update_task_stream_status
pause_task_stream name user agent rows = update_task_stream_status name user agent paused rows
