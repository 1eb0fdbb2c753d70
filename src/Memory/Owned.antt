-- ===== src/Memory/Owned.antt =====
-- Writes on behalf of one user: crates/surreal-memory/src/storage/surreal/owned.rs.
pub mod Untouched
use surreal_memory_server.Common.{
  ℕ, String, Bool, true, false, not, Option, none, some, List, ◌==◌, if◌then◌else◌, Result, ok, err,
}
use surreal_memory_server.Memory.Rows.{Memory, Store, find_row, get_memory, delete_row, log_deleted}
use surreal_memory_server.Memory.Update.{
  MemoryError, memory_not_found, embedding_failed, Edit, write_edit, answer_update,
}

unfoldable pub is_owned : String → Memory → Bool
is_owned owner m = elim m.user_id [ some u ↦ u == owner | none ↦ false ]

unfoldable pub is_owned_row : String → Option Memory → Bool
unfolding is_owned
is_owned_row owner none = false
is_owned_row owner (some m) = is_owned owner m

-- The transactions; `none` is their `THROW`.
unfoldable pub update_owned : String → String → Edit → Store → Option Store
unfolding find_row is_owned write_edit
update_owned id owner e s = elim (find_row id s.memories) [
  | none ↦ none
  | some m ↦ if is_owned owner m then some (write_edit id e m s) else none
]

unfoldable pub delete_owned : String → String → ℕ → Store → Option Store
unfolding find_row is_owned delete_row
delete_owned id owner now s = elim (find_row id s.memories) [
  | none ↦ none
  | some m ↦
      if is_owned owner m
      then some (record s {
        memories = delete_row id s.memories;
        history = log_deleted id m now s.history;
      })
      else none
]

unfoldable pub update_checked :
    String
    → String
    → String
    → Option (List ℕ)
    → ℕ
    → ℕ
    → (Store → Store)
    → Store
    → Result Memory MemoryError × Store
unfolding update_owned answer_update
update_checked id owner content none now read others s = (err embedding_failed, s)
update_checked id owner content (some v) now read others s =
    let e : Edit = record { content = content; embedding = v; now = now } in
    answer_update id read (update_owned id owner e (others s)) (others s)

-- The moments are those of the write, of the check and of the last read.
unfoldable pub update_memory_owned_impl :
    String
    → String
    → String
    → Option (List ℕ)
    → ℕ
    → ℕ
    → ℕ
    → (Store → Store)
    → Store
    → Result Memory MemoryError × Store
unfolding is_owned_row get_memory update_checked
update_memory_owned_impl id owner content embedding now cutoff read others s =
    if is_owned_row owner (get_memory id cutoff s)
    then update_checked id owner content embedding now read others s
    else (err (memory_not_found id), s)

unfoldable pub answer_delete : String → Option Store → Store → Result (Unit {0}) MemoryError × Store
answer_delete id none s = (err (memory_not_found id), s)
answer_delete id (some s') s = (ok tt, s')

unfoldable pub delete_memory_owned_impl :
    String → String → ℕ → ℕ → (Store → Store) → Store → Result (Unit {0}) MemoryError × Store
unfolding is_owned_row get_memory delete_owned answer_delete
delete_memory_owned_impl id owner now cutoff others s =
    if is_owned_row owner (get_memory id cutoff s)
    then answer_delete id (delete_owned id owner now (others s)) (others s)
    else (err (memory_not_found id), s)
