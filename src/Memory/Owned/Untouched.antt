-- ===== src/Memory/Owned/Untouched.antt =====
-- A write on behalf of one user leaves the rows of all others as they are.
use surreal_memory_server.Common.{
  ℕ, String, true, not, Option, none, some, List, [], ◌∷◌, keep, ◌≡◌, refl, ap, ◌∙◌, ◌⊎◌, inl, inr,
  Bool-cases, arith,
}
use surreal_memory_server.Memory.Rows.{
  Memory, Store, has_id, find_row, get_memory, replace_row, delete_row,
}
use surreal_memory_server.Memory.Update.{Edit, edited, write_edit, answer_update}
use surreal_memory_server.Memory.Owned.{
  is_owned, is_owned_row, update_owned, delete_owned, update_checked, update_memory_owned_impl,
  answer_delete, delete_memory_owned_impl,
}

-- The rows that belong to no one or to another user.
abbrev pub foreign : String → Store → List Memory
foreign owner s = keep (λ m. not (is_owned owner m)) s.memories

edited_owned :
    (owner : String) (e : Edit) (m : Memory) → is_owned owner (edited e m) ≡ is_owned owner m
unfolding is_owned edited
edited_owned owner e m = refl

keep-replace_row :
    (owner id : String) (e : Edit) (rows : List Memory) (m : Memory)
    → find_row id rows ≡ some m
    → is_owned owner m ≡ true
    → keep (λ n. not (is_owned owner n)) (replace_row id (edited e) rows)
      ≡ keep (λ n. not (is_owned owner n)) rows
unfolding find_row replace_row
keep-replace_row owner id e [] m h own = refl
keep-replace_row owner id e (r ∷ rest) m h own = elim (Bool-cases (has_id id r)) [
  | inl here ↦
      let same : r ≡ m = cc (rw here at h) in
      let own_r : is_owned owner r ≡ true = ap (λ n. is_owned owner n) same ∙ own in
      rw (here, edited_owned owner e r, own_r) refl
  | inr other ↦
      let rest_kept = keep-replace_row owner id e rest m (rw other at h) own in
      rw other (ground arith)
]

keep-delete_row :
    (owner id : String) (rows : List Memory) (m : Memory)
    → find_row id rows ≡ some m
    → is_owned owner m ≡ true
    → keep (λ n. not (is_owned owner n)) (delete_row id rows)
      ≡ keep (λ n. not (is_owned owner n)) rows
unfolding find_row delete_row
keep-delete_row owner id [] m h own = refl
keep-delete_row owner id (r ∷ rest) m h own = elim (Bool-cases (has_id id r)) [
  | inl here ↦
      let same : r ≡ m = cc (rw here at h) in
      let own_r : is_owned owner r ≡ true = ap (λ n. is_owned owner n) same ∙ own in
      rw (here, own_r) refl
  | inr other ↦
      let rest_kept = keep-delete_row owner id rest m (rw other at h) own in rw other (ground arith)
]

-- The tables after the transaction, if it is not aborted.
abbrev Keeps : String → Store → Option Store → Type 0
Keeps owner s none = Unit
Keeps owner s (some s') = foreign owner s' ≡ foreign owner s

update_owned-Keeps :
    (id owner : String) (e : Edit) (s : Store) (r : Option Memory)
    → find_row id s.memories ≡ r
    → Keeps owner s (update_owned id owner e s)
unfolding update_owned write_edit
update_owned-Keeps id owner e s none at = rw (at, Keeps) tt
update_owned-Keeps id owner e s (some m) at = elim (Bool-cases (is_owned owner m)) [
  | inl own ↦ rw (at, own, Keeps) (keep-replace_row owner id e s.memories m at own)
  | inr not_own ↦ rw (at, not_own, Keeps) tt
]

delete_owned-Keeps :
    (id owner : String) (now : ℕ) (s : Store) (r : Option Memory)
    → find_row id s.memories ≡ r
    → Keeps owner s (delete_owned id owner now s)
unfolding delete_owned
delete_owned-Keeps id owner now s none at = rw (at, Keeps) tt
delete_owned-Keeps id owner now s (some m) at = elim (Bool-cases (is_owned owner m)) [
  | inl own ↦ rw (at, own, Keeps) (keep-delete_row owner id s.memories m at own)
  | inr not_own ↦ rw (at, not_own, Keeps) tt
]

answer_update-Keeps :
    (id owner : String) (read : ℕ) (s : Store) (r : Option Store)
    → Keeps owner s r
    → foreign owner (answer_update id read r s).1 ≡ foreign owner s
unfolding answer_update
answer_update-Keeps id owner read s none k = refl
answer_update-Keeps id owner read s (some s') k = k

answer_delete-Keeps :
    (id owner : String) (s : Store) (r : Option Store)
    → Keeps owner s r
    → foreign owner (answer_delete id r s).1 ≡ foreign owner s
unfolding answer_delete
answer_delete-Keeps id owner s none k = refl
answer_delete-Keeps id owner s (some s') k = k

-- The call did nothing, or it leaves the foreign rows that its transaction found.
abbrev pub Untouched : String → Store → (Store → Store) → Store → Type 0
Untouched owner s others after = (after ≡ s) ⊎ (foreign owner after ≡ foreign owner (others s))

module _ (id owner : String) (now cutoff : ℕ) (others : Store → Store) (s : Store) where
  update_checked-Untouched :
      (content : String) (embedding : Option (List ℕ)) (read : ℕ)
      → Untouched owner s others (update_checked id owner content embedding now read others s).1
  unfolding update_checked
  update_checked-Untouched content none read = inl refl
  update_checked-Untouched content (some v) read = inr (
      answer_update-Keeps id owner read (others s) _
        (update_owned-Keeps id owner _ (others s) _ refl))

  -- A write on behalf of a user, an update or a deletion, either changes nothing or leaves every row
  -- that is not the user's as its transaction found it, also when the row that it names changes
  -- hands after the first check.
  pub owned_writes-Untouched :
      (content : String) (embedding : Option (List ℕ)) (read : ℕ)
      → Untouched owner s others
          (update_memory_owned_impl id owner content embedding now cutoff read others s).1
        × Untouched owner s others (delete_memory_owned_impl id owner now cutoff others s).1
  unfolding update_memory_owned_impl delete_memory_owned_impl
  owned_writes-Untouched content embedding read =
      elim (Bool-cases (is_owned_row owner (get_memory id cutoff s))) [
        | inr other ↦ rw other (inl refl, inl refl)
        | inl own ↦ rw own (
          update_checked-Untouched content embedding read,
          inr (
              answer_delete-Keeps id owner (others s) _
                (delete_owned-Keeps id owner now (others s) _ refl)),
        )
      ]
