-- ===== src/Compression/Contract.antt =====
-- The claims and sources of crates/surreal-memory/src/compression/contract.rs.
use surreal_memory_server.Common.{
  ℕ, String, Bool, true, false, Option, none, List, any, ◌||◌, if◌then◌else◌,
}
use surreal_memory_server.Auth.Access.{eq_ignore_ascii_case}

-- What the compression uses of Unicode's tables, SHA-256 and IEEE 754 doubles: `quotient m n` is
-- the literal m/n, and `floor` is `floor() as u64`.
pub record Platform : Type 1 where
  pub nfc : String → String
  pub to_lowercase : String → String
  pub is_alphanumeric : ℕ → Bool
  pub sha256_hex : String → String
  pub F64 : Type 0
  pub quotient : ℕ → ℕ → F64
  pub of_nat : ℕ → F64
  pub minus : F64 → F64 → F64
  pub times : F64 → F64 → F64
  pub divided_by : F64 → F64 → F64
  pub at_least : F64 → F64 → Bool
  pub floor : F64 → ℕ

pub data ClaimKind : Type 0 where
  decision constraint lesson open_question conflict fact : ClaimKind

unfoldable pub is_guidance : ClaimKind → Bool
is_guidance decision = true
is_guidance constraint = true
is_guidance lesson = true
is_guidance _ = false

unfoldable pub is_protected : ClaimKind → Bool
is_protected constraint = true
is_protected open_question = true
is_protected conflict = true
is_protected _ = false

unfoldable pub drop_priority : ClaimKind → ℕ
drop_priority fact = 0
drop_priority lesson = 1
drop_priority decision = 2
drop_priority _ = 3

-- The derived equality.
unfoldable pub same_kind : ClaimKind → ClaimKind → Bool
same_kind decision decision = true
same_kind constraint constraint = true
same_kind lesson lesson = true
same_kind open_question open_question = true
same_kind conflict conflict = true
same_kind fact fact = true
same_kind _ _ = false

pub data SummaryMethod : Type 0 where
  extractive semantic : SummaryMethod

unfoldable pub as_str : SummaryMethod → String
as_str extractive = "extractive"
as_str semantic = "semantic"

-- Who produced a source.
pub data SourceOrigin : Type 0 where
  user assistant tool summary unknown : SourceOrigin

abbrev has : List String → String → Bool
has categories tag = any (λ c. eq_ignore_ascii_case c tag) categories

unfoldable pub from_categories : List String → SourceOrigin
from_categories categories =
    if has categories "auto_summary" || has categories "compressed"
    then summary
    else if has categories "user"
    then user
    else if has categories "assistant"
    then assistant
    else if has categories "tool" || has categories "system"
    then tool
    else unknown

-- A memory at the version that is summarized. A moment is in milliseconds.
pub record SourceMemory : Type 0 where
  pub id : String
  pub version : ℕ
  pub content : String
  pub origin : SourceOrigin
  pub root_sources : List String
  pub observed_at : Option ℕ
  pub valid_until : Option ℕ

pub record Applicability : Type 0 where
  pub project : Option String
  pub task : Option String
  pub environment : Option String
  pub version : Option String

abbrev pub not_stated : Applicability
not_stated = record { project = none; task = none; environment = none; version = none }

pub record Qualifiers : Type 0 where
  pub negated : Bool
  pub uncertain : Bool
  pub failed_approach : Bool
  pub quoted_instruction : Bool
  pub one_off : Bool

pub record EvidenceRef : Type 0 where
  pub source_id : String
  pub source_version : ℕ
  pub quote : String

-- A claim that a summarizer proposes.
pub record Candidate : Type 0 where
  pub kind : ClaimKind
  pub text : String
  pub qualifiers : Qualifiers
  pub evidence : List EvidenceRef
  pub applicability : Applicability
  pub validated : Bool
