-- ===== src/Memory/Examples.antt =====
-- Runs of the writes on memories, and the theorems on them at two rows.
use surreal_memory_server.Common.{
  arith, ok, true, ℕ, String, Option, none, some, [], ◌∷◌, ◌+◌, err, ◌≡◌, refl, ◌≤◌,
}
use surreal_memory_server.Memory.Rows.{
  Memory, created, updated, Store, find_row, is_expired_at, log_deleted,
}
use surreal_memory_server.Memory.Update.{memory_not_found, update_memory, delete_memory}
use surreal_memory_server.Memory.Add.{new_row, add_memory}
use surreal_memory_server.Memory.Audit.{copies, latest, IsAudited}
use surreal_memory_server.Memory.Audit.Calls.{delete_memory-IsAudited, memory_writes-IsAudited}
use surreal_memory_server.Memory.Owned.{update_memory_owned_impl, delete_memory_owned_impl}
use surreal_memory_server.Memory.Owned.Untouched.{Untouched, owned_writes-Untouched}
use surreal_memory_server.Memory.Expiry.{injected, answered, sweep_expired}
use surreal_memory_server.Memory.Expiry.Report.{sweep_expired-total}
use surreal_memory_server.Memory.Expiry.Spared.{sweep_expired-Spares}

abbrev row : String → String → Option ℕ → Memory
row id user valid_until = record {
  id = some id;
  content = "text";
  embedding = none;
  user_id = some user;
  session_id = none;
  agent_id = none;
  task_stream_id = none;
  token_count = some 1;
  importance = 0;
  status = none;
  valid_until = valid_until;
  version = 1;
  created_at = 0;
  updated_at = 0;
}

abbrev two_rows : Store
two_rows = record {
  memories = row "memory:1" "ann" (some 5) ∷ row "memory:2" "bob" (some 9) ∷ [];
  history = [];
}

-- Another caller gives the row to Bob.
abbrev hands_over : Store → Store
hands_over s = record s {
  memories = row "memory:1" "bob" (some 9) ∷ row "memory:2" "bob" (some 9) ∷ [];
}

owned_writes-Untouched_example :
    Untouched "ann" two_rows hands_over
      (update_memory_owned_impl "memory:1" "ann" "new" (some []) 3 3 3 hands_over two_rows).1
    × Untouched "ann" two_rows hands_over
        (delete_memory_owned_impl "memory:1" "ann" 3 3 hands_over two_rows).1
owned_writes-Untouched_example =
    owned_writes-Untouched "memory:1" "ann" 3 3 hands_over two_rows "new" (some []) 3

-- The row that changed hands is not deleted.
not_deleted :
    delete_memory_owned_impl "memory:1" "ann" 3 3 hands_over two_rows
    ≡ (err (memory_not_found "memory:1"), hands_over two_rows)
unfolding delete_memory_owned_impl
not_deleted = refl

-- A row that is expired and not swept yet is not found for its owner.
expired_not_deleted :
    delete_memory_owned_impl "memory:1" "ann" 7 7 (λ s. s) two_rows
    ≡ (err (memory_not_found "memory:1"), two_rows)
unfolding delete_memory_owned_impl
expired_not_deleted = refl

swept : sweep_expired 7 [] two_rows ≡ (
  record { selected = 1; removed = 1; skipped = 0; failed = 0 },
  record {
    memories = row "memory:2" "bob" (some 9) ∷ [];
    history = log_deleted "memory:1" (row "memory:1" "ann" (some 5)) 7 [];
  },
)
unfolding sweep_expired
swept = refl

sweep_expired-total_example :
    ((sweep_expired 20 (injected ∷ []) two_rows).0.selected
      ≡ (sweep_expired 20 (injected ∷ []) two_rows).0.removed
        + (sweep_expired 20 (injected ∷ []) two_rows).0.skipped
        + (sweep_expired 20 (injected ∷ []) two_rows).0.failed)
    × ((sweep_expired 20 (injected ∷ []) two_rows).0.selected ≤ 1000)
sweep_expired-total_example = sweep_expired-total 20 (injected ∷ []) two_rows

sweep_expired-Spares_example :
    find_row "memory:2" (sweep_expired 7 (answered (λ s. s) ∷ []) two_rows).1.memories
    ≡ some (row "memory:2" "bob" (some 9))
unfolding is_expired_at find_row
sweep_expired-Spares_example =
    sweep_expired-Spares "memory:2" (row "memory:2" "bob" (some 9)) 7 refl (answered (λ s. s) ∷ [])
      two_rows (λ s h. h, tt) refl

-- The table with the entries of both creations.
abbrev audited_rows : Store
audited_rows = record {
  memories = two_rows.memories;
  history =
      record {
        memory_id = "memory:1";
        version = 1;
        old_content = none;
        new_content = "text";
        changed_at = 0;
        change_type = created;
      }
      ∷ [];
}

-- A new text is inserted with its entry, a near duplicate updates the row.
add_new :
    (add_memory
      (row "" "ann" none)
      (some (7 ∷ []))
      []
      (λ a b. true)
      "memory:3"
      2
      2
      2
      2
      (λ s. s)
      two_rows).0
    ≡ ok (new_row "memory:3" (7 ∷ []) 2 (row "" "ann" none))
unfolding add_memory
add_new = refl

add_near :
    latest "memory:1"
      (add_memory
        (row "" "ann" none)
        (some (7 ∷ []))
        (record (row "memory:1" "ann" none) { embedding = some (7 ∷ []) } ∷ [])
        (λ a b. true)
        "memory:3"
        2
        2
        2
        2
        (λ s. s)
        two_rows).1.history
    ≡ some (record {
      memory_id = "memory:1";
      version = 2;
      old_content = some "text";
      new_content = "text";
      changed_at = 2;
      change_type = updated;
    })
unfolding add_memory latest
add_near = refl

-- Another caller deletes the row.
abbrev deletes : Store → Store
deletes s = delete_memory "memory:1" 4 (λ t. t) s

memory_writes-IsAudited_example :
    IsAudited "memory:1" (update_memory "memory:1" "new" (some []) 3 3 3 3 deletes audited_rows).1
    × IsAudited "memory:1"
        (update_memory_owned_impl "memory:1" "ann" "new" (some []) 3 3 3 deletes audited_rows).1
    × IsAudited "memory:1" (delete_memory "memory:1" 3 deletes audited_rows)
    × IsAudited "memory:1" (delete_memory_owned_impl "memory:1" "ann" 3 3 deletes audited_rows).1
    × IsAudited "memory:1"
        (add_memory
          (row "" "ann" none)
          (some [])
          []
          (λ a b. true)
          "memory:1"
          3
          3
          3
          3
          deletes
          audited_rows).1
    × IsAudited "memory:1" (sweep_expired 3 (answered deletes ∷ []) audited_rows).1
unfolding copies latest find_row
memory_writes-IsAudited_example =
    memory_writes-IsAudited "memory:1" "memory:1" "ann" "new" (some []) 3 3 3 3 (row "" "ann" none)
      [] (λ a b. true) deletes (answered deletes ∷ []) audited_rows
      (λ s a. delete_memory-IsAudited "memory:1" "memory:1" 4 (λ t. t) (λ t b. b) s a _ refl)
      ((λ s a. delete_memory-IsAudited "memory:1" "memory:1" 4 (λ t. t) (λ t b. b) s a _ refl), tt)
      (omega arith, (refl, refl))
