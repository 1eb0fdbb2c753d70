-- ===== src/Memory/Rows.antt =====
-- `Memory` and `MemoryHistory` of crates/surreal-memory/src/memory.rs, without the fields that no
-- operation here reads or writes, and the reads of storage/surreal.rs and surreal/expiry.rs. A
-- record id is a text, a moment a number and an `f32` its bits.
use surreal_memory_server.Common.{
  ℕ, String, Bool, true, false, ◌&&◌, Option, none, some, List, [], ◌∷◌, ◌++◌, keep, ltb, leb, ◌==◌,
  if◌then◌else◌, ◌+◌, ◌/◌, ◌%◌, ◌^◌,
}
use surreal_memory_server.Tasks.Stream.{matches}
use Prim.Native.String.{len}

pub record Memory : Type 0 where
  pub id : Option String
  pub content : String
  pub embedding : Option (List ℕ)
  pub user_id : Option String
  pub session_id : Option String
  pub agent_id : Option String
  pub task_stream_id : Option String
  pub token_count : Option ℕ
  pub importance : ℕ
  pub status : Option String
  pub valid_until : Option ℕ
  pub version : ℕ
  pub created_at : ℕ
  pub updated_at : ℕ

pub data ChangeType : Type 0 where
  created updated deleted : ChangeType

pub record History : Type 0 where
  pub memory_id : String
  pub version : ℕ
  pub old_content : Option String
  pub new_content : String
  pub changed_at : ℕ
  pub change_type : ChangeType

pub record Store : Type 0 where
  pub memories : List Memory
  pub history : List History

-- The length is cast to 32 bits.
unfoldable pub estimate_tokens : String → ℕ
estimate_tokens text = (len text % 2 ^ 32 + 3) / 4

unfoldable pub has_id : String → Memory → Bool
has_id id m = elim m.id [ some i ↦ i == id | none ↦ false ]

unfoldable pub find_row : String → List Memory → Option Memory
unfolding has_id
find_row id [] = none
find_row id (m ∷ ms) = if has_id id m then some m else find_row id ms

unfoldable pub is_expired_at : Memory → ℕ → Bool
is_expired_at m cutoff = elim m.valid_until [ none ↦ false | some v ↦ ltb v cutoff ]

unfoldable pub is_active : Option String → Bool
is_active none = true
is_active (some s) = s == "active"

-- The condition of `LIVE_MEMORY_SQL`.
unfoldable pub is_live : Memory → ℕ → Bool
unfolding is_active
is_live m now = is_active m.status && (elim m.valid_until [ none ↦ true | some v ↦ leb now v ])

unfoldable pub get_memory_including_expired : String → Store → Option Memory
unfolding find_row
get_memory_including_expired id s = find_row id s.memories

unfoldable pub unless_expired : ℕ → Option Memory → Option Memory
unfolding is_expired_at
unless_expired cutoff none = none
unless_expired cutoff (some m) = if is_expired_at m cutoff then none else some m

unfoldable pub get_memory : String → ℕ → Store → Option Memory
unfolding get_memory_including_expired unless_expired
get_memory id cutoff s = unless_expired cutoff (get_memory_including_expired id s)

unfoldable pub list_memories_scoped :
    Option String → Option String → Option String → Bool → ℕ → Store → List Memory
unfolding matches is_live
list_memories_scoped user agent session live now s =
    keep
      (λ m.
        matches user m.user_id
        && matches agent m.agent_id
        && matches session m.session_id
        && (if live then is_live m now else true))
      s.memories

-- `UPDATE` and `DELETE` of one record.
unfoldable pub replace_row : String → (Memory → Memory) → List Memory → List Memory
unfolding has_id
replace_row id f [] = []
replace_row id f (m ∷ ms) = if has_id id m then f m ∷ ms else m ∷ replace_row id f ms

unfoldable pub delete_row : String → List Memory → List Memory
unfolding has_id
delete_row id [] = []
delete_row id (m ∷ ms) = if has_id id m then ms else m ∷ delete_row id ms

abbrev pub log_deleted : String → Memory → ℕ → List History → List History
log_deleted id m now h =
    h
    ++ record {
      memory_id = id;
      version = m.version + 1;
      old_content = some m.content;
      new_content = m.content;
      changed_at = now;
      change_type = deleted;
    }
      ∷ []
