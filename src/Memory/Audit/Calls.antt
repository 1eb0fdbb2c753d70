-- ===== src/Memory/Audit/Calls.antt =====
-- Every call that writes memories keeps the history in agreement with the rows, whatever other
-- callers with the same discipline do meanwhile.
use surreal_memory_server.Common.{
  ℕ, String, Bool, Option, none, some, List, [], ◌∷◌, ◌≡◌, refl, Bool-cases, inl, inr, All,
}
use surreal_memory_server.Memory.Rows.{Memory, Store, get_memory, get_memory_including_expired}
use surreal_memory_server.Memory.Update.{update_found, update_memory, delete_memory}
use surreal_memory_server.Memory.Owned.{
  is_owned_row, update_checked, update_memory_owned_impl, delete_memory_owned_impl,
}
use surreal_memory_server.Memory.Add.{near_duplicate, answer_create, add_memory}
use surreal_memory_server.Memory.Expiry.{
  Fate, injected, refused, unanswered, answered, SweepReport, delete_if_still_expired,
  select_expired, sweep_one, sweep_rows, sweep_expired,
}
use surreal_memory_server.Memory.Audit.{IsAudited}
use surreal_memory_server.Memory.Audit.Kept.{
  Audited, removed-IsAudited, deleted-IsAudited, update_live-Audited, update_owned-Audited,
  delete_owned-Audited, answer_update-IsAudited, answer_delete-IsAudited, expire-IsAudited,
  create_memory-Audited,
}

module _ (i : String) where
  -- What others do keeps the agreement.
  abbrev pub Keeps : (Store → Store) → Type 0
  Keeps others = (s : Store) → IsAudited i s → IsAudited i (others s)

  abbrev pub FateKeeps : Fate → Type 0
  FateKeeps injected = Unit
  FateKeeps (refused others) = Keeps others
  FateKeeps (unanswered others) = Keeps others
  FateKeeps (answered others) = Keeps others

  module _ (id : String) (now : ℕ) (others : Store → Store) (keeps : Keeps others) (s : Store)
      (a : IsAudited i s) where
    update_found-IsAudited :
        (content : String) (embedding : Option (List ℕ)) (cutoff read : ℕ)
        → IsAudited i (update_found id content embedding now cutoff read others s).1
    unfolding update_found
    update_found-IsAudited content none cutoff read = a
    update_found-IsAudited content (some v) cutoff read =
        answer_update-IsAudited i id read (others s) _ (keeps s a)
          (update_live-Audited i id _ cutoff (others s) _ refl (keeps s a))

    update_memory-IsAudited :
        (content : String) (embedding : Option (List ℕ)) (first cutoff read : ℕ) (r : Option Memory)
        → get_memory id first s ≡ r
        → IsAudited i (update_memory id content embedding now first cutoff read others s).1
    unfolding update_memory
    update_memory-IsAudited content embedding first cutoff read none at = rw (at, update_memory) a
    update_memory-IsAudited content embedding first cutoff read (some m) at =
        rw (at, update_memory) (update_found-IsAudited content embedding cutoff read)

    pub delete_memory-IsAudited :
        (r : Option Memory)
        → get_memory_including_expired id s ≡ r
        → IsAudited i (delete_memory id now others s)
    unfolding delete_memory
    delete_memory-IsAudited none at =
        rw (at, delete_memory) (removed-IsAudited i id (others s) (keeps s a))
    delete_memory-IsAudited (some m) at =
        rw (at, delete_memory) (deleted-IsAudited i id m now (others s) (keeps s a))

    update_checked-IsAudited :
        (owner content : String) (embedding : Option (List ℕ)) (read : ℕ)
        → IsAudited i (update_checked id owner content embedding now read others s).1
    unfolding update_checked
    update_checked-IsAudited owner content none read = a
    update_checked-IsAudited owner content (some v) read =
        answer_update-IsAudited i id read (others s) _ (keeps s a)
          (update_owned-Audited i id owner _ (others s) _ refl (keeps s a))

    update_owned-IsAudited :
        (owner content : String) (embedding : Option (List ℕ)) (cutoff read : ℕ)
        → IsAudited i
            (update_memory_owned_impl id owner content embedding now cutoff read others s).1
    unfolding update_memory_owned_impl
    update_owned-IsAudited owner content embedding cutoff read =
        elim (Bool-cases (is_owned_row owner (get_memory id cutoff s))) [
          | inl own ↦ rw own (update_checked-IsAudited owner content embedding read)
          | inr other ↦ rw other a
        ]

    delete_owned-IsAudited :
        (owner : String) (cutoff : ℕ)
        → IsAudited i (delete_memory_owned_impl id owner now cutoff others s).1
    unfolding delete_memory_owned_impl
    delete_owned-IsAudited owner cutoff =
        elim (Bool-cases (is_owned_row owner (get_memory id cutoff s))) [
          | inl own ↦ rw own (
              answer_delete-IsAudited i id (others s) _ (keeps s a)
                (delete_owned-Audited i id owner now (others s) _ refl (keeps s a)))
          | inr other ↦ rw other a
        ]

  answer_create-IsAudited :
      (key : String) (r : Option Store) (s : Store)
      → IsAudited i s
      → Audited i r
      → IsAudited i (answer_create key r s).1
  unfolding answer_create
  answer_create-IsAudited key none s a k = a
  answer_create-IsAudited key (some s') s a k = k

  module _ (m : Memory) (v : List ℕ) (candidates : List Memory) (similar : List ℕ → List ℕ → Bool)
      (key : String) (now first cutoff read : ℕ) (others : Store → Store) (s : Store)
      (keeps : Keeps others) (a : IsAudited i s) where
    add_memory_near-IsAudited :
        (r : Option String)
        → near_duplicate (similar v) candidates ≡ r
        → IsAudited i
            (add_memory m (some v) candidates similar key now first cutoff read others s).1
    unfolding add_memory
    add_memory_near-IsAudited none at =
        rw (at, add_memory)
          (answer_create-IsAudited key _ (others s) (keeps s a)
            (create_memory-Audited i key v now m (others s) _ refl (keeps s a)))
    add_memory_near-IsAudited (some id) at =
        rw (at, add_memory)
          (update_memory-IsAudited id now others keeps s a m.content (some v) first cutoff read _
            refl)

  add_memory-IsAudited :
      (m : Memory) (embedding : Option (List ℕ)) (candidates : List Memory)
      (similar : List ℕ → List ℕ → Bool) (key : String) (now first cutoff read : ℕ)
      (others : Store → Store) (s : Store)
      → Keeps others
      → IsAudited i s
      → IsAudited i (add_memory m embedding candidates similar key now first cutoff read others s).1
  unfolding add_memory
  add_memory-IsAudited m none candidates similar key now first cutoff read others s keeps a = a
  add_memory-IsAudited m (some v) candidates similar key now first cutoff read others s keeps a =
      add_memory_near-IsAudited m v candidates similar key now first cutoff read others s keeps a _
        refl

  sweep_one-IsAudited :
      (cutoff : ℕ) (id : Option String) (fate : Fate) (r : SweepReport) (s : Store)
      → FateKeeps fate
      → IsAudited i s
      → IsAudited i (sweep_one id fate cutoff (r, s)).1
  unfolding sweep_one delete_if_still_expired
  sweep_one-IsAudited cutoff none fate r s k a = a
  sweep_one-IsAudited cutoff (some id) injected r s k a = a
  sweep_one-IsAudited cutoff (some id) (refused others) r s k a = k s a
  sweep_one-IsAudited cutoff (some id) (unanswered others) r s k a =
      expire-IsAudited i id cutoff (others s) _ refl (k s a)
  sweep_one-IsAudited cutoff (some id) (answered others) r s k a =
      expire-IsAudited i id cutoff (others s) _ refl (k s a)

  sweep_rows-IsAudited :
      (cutoff : ℕ) (rows : List Memory) (fates : List Fate) (found : SweepReport × Store)
      → All FateKeeps fates
      → IsAudited i found.1
      → IsAudited i (sweep_rows rows fates cutoff found).1
  unfolding sweep_rows
  sweep_rows-IsAudited cutoff [] fates found all a = a
  sweep_rows-IsAudited cutoff (n ∷ rows) [] found all a =
      sweep_rows-IsAudited cutoff rows [] _ tt
        (sweep_one-IsAudited cutoff n.id (answered (λ s. s)) found.0 found.1 (λ s k. k) a)
  sweep_rows-IsAudited cutoff (n ∷ rows) (f ∷ fs) found all a =
      sweep_rows-IsAudited cutoff rows fs _ all.1
        (sweep_one-IsAudited cutoff n.id f found.0 found.1 all.0 a)

  -- If an id has at most one row and the last entry of the history for it has that row's version
  -- and content, then this still holds after an update, an update or a deletion for one user, a
  -- deletion, the creation of a memory and a sweep, each of any record, if it holds for what other
  -- callers do meanwhile.
  pub memory_writes-IsAudited :
      (id owner content : String) (embedding : Option (List ℕ)) (now first cutoff read : ℕ)
      (m : Memory) (candidates : List Memory) (similar : List ℕ → List ℕ → Bool)
      (others : Store → Store) (fates : List Fate) (s : Store)
      → Keeps others
      → All FateKeeps fates
      → IsAudited i s
      → IsAudited i (update_memory id content embedding now first cutoff read others s).1
        × IsAudited i
            (update_memory_owned_impl id owner content embedding now cutoff read others s).1
        × IsAudited i (delete_memory id now others s)
        × IsAudited i (delete_memory_owned_impl id owner now cutoff others s).1
        × IsAudited i
            (add_memory m embedding candidates similar id now first cutoff read others s).1
        × IsAudited i (sweep_expired cutoff fates s).1
  unfolding sweep_expired
  memory_writes-IsAudited id owner content embedding now first cutoff read m candidates similar
        others fates s keeps all a =
      (
        update_memory-IsAudited id now others keeps s a content embedding first cutoff read _ refl,
        update_owned-IsAudited id now others keeps s a owner content embedding cutoff read,
        delete_memory-IsAudited id now others keeps s a _ refl,
        delete_owned-IsAudited id now others keeps s a owner cutoff,
        add_memory-IsAudited m embedding candidates similar id now first cutoff read others s keeps
            a,
        sweep_rows-IsAudited cutoff (select_expired cutoff s) fates _ all a,
      )
