-- ===== src/Memory/Audit.antt =====
-- The history agrees with the rows: what the transactions on memories of
-- crates/surreal-memory/src/storage keep of it.
pub mod Rows
pub mod Kept
pub mod Calls
use surreal_memory_server.Common.{
  ℕ, String, Bool, true, false, Option, none, some, List, [], ◌∷◌, ◌==◌, if◌then◌else◌, ◌≡◌, ◌≤◌,
  ◌+◌,
}
use surreal_memory_server.Memory.Rows.{Memory, History, Store, has_id, find_row}

-- How many rows have an id.
unfoldable pub copies : String → List Memory → ℕ
copies id [] = 0
copies id (m ∷ ms) = if has_id id m then copies id ms + 1 else copies id ms

-- The last entry of the history for an id.
unfoldable pub latest : String → List History → Option History
latest id [] = none
latest id (h ∷ hs) = elim (latest id hs) [
  | some k ↦ some k
  | none ↦ if h.memory_id == id then some h else none
]

-- A row has the version and the content of the last entry.
abbrev pub Agrees : Option Memory → Option History → Type 0
Agrees none h = Unit
Agrees (some m) none = ⊥
Agrees (some m) (some h) = (h.version ≡ m.version) × (h.new_content ≡ m.content)

-- At most one row has the id, and the last entry for it agrees with that row.
abbrev pub IsAudited : String → Store → Type 0
IsAudited id s = (copies id s.memories ≤ 1) × Agrees (find_row id s.memories) (latest id s.history)
