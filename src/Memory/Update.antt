-- ===== src/Memory/Update.antt =====
-- `update_memory` and `delete_memory` of crates/surreal-memory/src/storage/surreal.rs.
use surreal_memory_server.Common.{
  ℕ, String, Option, none, some, List, [], ◌∷◌, ◌++◌, ◌+◌, if◌then◌else◌, Result, ok, err,
}
use surreal_memory_server.Memory.Rows.{
  Memory, Store, updated, estimate_tokens, find_row, is_expired_at, get_memory,
  get_memory_including_expired, replace_row, delete_row, log_deleted,
}

pub data MemoryError : Type 0 where
  memory_not_found : String → MemoryError
  embedding_failed : MemoryError
  failed_to_update : MemoryError

-- A new content with its embedding, written at a moment.
pub record Edit : Type 0 where
  pub content : String
  pub embedding : List ℕ
  pub now : ℕ

-- The row and the history after a change of content.
unfoldable pub edited : Edit → Memory → Memory
unfolding estimate_tokens
edited e m = record m {
  content = e.content;
  embedding = some e.embedding;
  token_count = some (estimate_tokens e.content);
  version = m.version + 1;
  updated_at = e.now;
}

unfoldable pub write_edit : String → Edit → Memory → Store → Store
unfolding edited replace_row
write_edit id e m s = record s {
  memories = replace_row id (edited e) s.memories;
  history =
      s.history
      ++ record {
        memory_id = id;
        version = m.version + 1;
        old_content = some m.content;
        new_content = e.content;
        changed_at = e.now;
        change_type = updated;
      }
        ∷ [];
}

-- The transaction; `none` is its `THROW`.
unfoldable pub update_live : String → Edit → ℕ → Store → Option Store
unfolding find_row is_expired_at write_edit
update_live id e cutoff s = elim (find_row id s.memories) [
  | none ↦ none
  | some m ↦ if is_expired_at m cutoff then none else some (write_edit id e m s)
]

unfoldable pub read_back : Option Memory → Result Memory MemoryError
read_back (some m) = ok m
read_back none = err failed_to_update

-- The answer after the transaction, on the tables that it was submitted to.
unfoldable pub answer_update : String → ℕ → Option Store → Store → Result Memory MemoryError × Store
unfolding read_back get_memory
answer_update id cutoff none s = (err (memory_not_found id), s)
answer_update id cutoff (some s') s = (read_back (get_memory id cutoff s'), s')

unfoldable pub update_found :
    String
    → String
    → Option (List ℕ)
    → ℕ
    → ℕ
    → ℕ
    → (Store → Store)
    → Store
    → Result Memory MemoryError × Store
unfolding answer_update update_live
update_found id content none now cutoff read others s = (err embedding_failed, s)
update_found id content (some v) now cutoff read others s =
    let e : Edit = record { content = content; embedding = v; now = now } in
    answer_update id read (update_live id e cutoff (others s)) (others s)

-- The moments are those of the write, of the first read, of the check in the transaction and of the
-- last read.
unfoldable pub update_memory :
    String
    → String
    → Option (List ℕ)
    → ℕ
    → ℕ
    → ℕ
    → ℕ
    → (Store → Store)
    → Store
    → Result Memory MemoryError × Store
unfolding get_memory update_found
update_memory id content embedding now first cutoff read others s = elim (get_memory id first s) [
  | none ↦ (err (memory_not_found id), s)
  | some m ↦ update_found id content embedding now cutoff read others s
]

-- The audit row is that of the row that was read; a record that is gone is deleted again.
unfoldable pub delete_memory : String → ℕ → (Store → Store) → Store → Store
unfolding get_memory_including_expired delete_row
delete_memory id now others s =
    let s' = others s in
    elim (get_memory_including_expired id s) [
      | none ↦ record s' { memories = delete_row id s'.memories }
      | some m ↦ record s' {
        memories = delete_row id s'.memories;
        history = log_deleted id m now s'.history;
      }
    ]
