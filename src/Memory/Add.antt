-- ===== src/Memory/Add.antt =====
-- `add_memory` of crates/surreal-memory/src/storage/surreal.rs. The embedding of the text, the
-- candidates that the vector search answers and the test of similarity at 0.92 are arguments.
use surreal_memory_server.Common.{
  ℕ, String, Bool, Option, none, some, List, [], ◌∷◌, ◌++◌, if◌then◌else◌, Result, err,
}
use surreal_memory_server.Memory.Rows.{Memory, Store, created, estimate_tokens, find_row}
use surreal_memory_server.Memory.Update.{
  MemoryError, embedding_failed, failed_to_update, update_memory, read_back,
}

-- The id of a candidate that has an embedding near to the text's.
unfoldable pub near_id : (List ℕ → Bool) → Option (List ℕ) → Option String → Option String
near_id similar (some v) (some id) = if similar v then some id else none
near_id similar _ _ = none

unfoldable pub near_duplicate : (List ℕ → Bool) → List Memory → Option String
unfolding near_id
near_duplicate similar [] = none
near_duplicate similar (c ∷ cs) = elim (near_id similar c.embedding c.id) [
  | some id ↦ some id
  | none ↦ near_duplicate similar cs
]

abbrev pub or_estimate : Option ℕ → String → ℕ
or_estimate (some n) content = n
or_estimate none content = estimate_tokens content

-- The row that is created.
unfoldable pub new_row : String → List ℕ → ℕ → Memory → Memory
unfolding estimate_tokens
new_row key embedding now m = record m {
  id = some key;
  embedding = some embedding;
  token_count = some (or_estimate m.token_count m.content);
  version = 1;
  created_at = now;
  updated_at = now;
}

-- The transaction; `none` if the record is there already.
unfoldable pub create_memory : String → List ℕ → ℕ → Memory → Store → Option Store
unfolding find_row new_row
create_memory key embedding now m s = elim (find_row key s.memories) [
  | some there ↦ none
  | none ↦ some (record {
    memories = s.memories ++ new_row key embedding now m ∷ [];
    history =
        s.history
        ++ record {
          memory_id = key;
          version = 1;
          old_content = none;
          new_content = m.content;
          changed_at = now;
          change_type = created;
        }
          ∷ [];
  })
]

unfoldable pub answer_create : String → Option Store → Store → Result Memory MemoryError × Store
unfolding read_back find_row
answer_create key none s = (err failed_to_update, s)
answer_create key (some s') s = (read_back (find_row key s'.memories), s')

-- The moments are those of the write, and of the first read, the check and the last read of an
-- update.
unfoldable pub add_memory :
    Memory
    → Option (List ℕ)
    → List Memory
    → (List ℕ → List ℕ → Bool)
    → String
    → ℕ
    → ℕ
    → ℕ
    → ℕ
    → (Store → Store)
    → Store
    → Result Memory MemoryError × Store
unfolding near_duplicate update_memory create_memory answer_create
add_memory m none candidates similar key now first cutoff read others s = (err embedding_failed, s)
add_memory m (some v) candidates similar key now first cutoff read others s =
    elim (near_duplicate (similar v) candidates) [
      | some id ↦ update_memory id m.content (some v) now first cutoff read others s
      | none ↦ answer_create key (create_memory key v now m (others s)) (others s)
    ]
