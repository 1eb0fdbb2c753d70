-- ===== src/Memory/Audit/Kept.antt =====
-- Every transaction on memories keeps the history in agreement with the rows.
use surreal_memory_server.Common.{
  ℕ, String, true, false, Option, none, some, List, ◌==◌, eq_iff, ◌≡◌, refl, sym, subst, ◌∙◌, ◌≤◌,
  Bool-cases, inl, inr, arith,
}
use surreal_memory_server.Memory.Rows.{
  Memory, History, Store, has_id, find_row, is_expired_at, replace_row, delete_row, log_deleted,
}
use surreal_memory_server.Memory.Update.{Edit, edited, write_edit, update_live, answer_update}
use surreal_memory_server.Memory.Owned.{is_owned, update_owned, delete_owned, answer_delete}
use surreal_memory_server.Memory.Add.{new_row, create_memory}
use surreal_memory_server.Memory.Expiry.{expire}
use surreal_memory_server.Memory.Audit.{copies, latest, Agrees, IsAudited}
use surreal_memory_server.Memory.Audit.Rows.{
  find-copies, copies-find, copies-append_other, copies-append_self, find-append, find-append_self,
  copies-replace, copies-delete, copies-delete_self, find-replace_self, find-replace, Agrees-append,
  Agrees-append_other,
}
use surreal_memory_server.Memory.Expiry.Spared.{find-delete_row}

new_row_id :
    (i key : String) (embedding : List ℕ) (now : ℕ) (m : Memory)
    → has_id i (new_row key embedding now m) ≡ (key == i)
unfolding new_row has_id
new_row_id i key embedding now m = refl

module _ (i : String) where
  write_edit-IsAudited :
      (id : String) (e : Edit) (m : Memory) (s : Store)
      → find_row id s.memories ≡ some m
      → IsAudited i s
      → IsAudited i (write_edit id e m s)
  unfolding write_edit edited
  write_edit-IsAudited id e m s at (one, agree) = elim (Bool-cases (id == i)) [
    | inr other ↦ (
      subst (λ n. n ≤ 1) (sym (copies-replace i id e s.memories)) one,
      rw (find-replace i id e s.memories other) (Agrees-append_other i _ s.history _ other agree),
    )
    | inl same ↦
        let it : id ≡ i = (eq_iff id i).0 same in
        let there : find_row i s.memories ≡ some m =
          subst (λ j. find_row j s.memories ≡ some m) it at in
        let found : find_row i (replace_row id (edited e) s.memories) ≡ some (edited e m) =
          subst (λ j. find_row i (replace_row j (edited e) s.memories) ≡ some (edited e m)) (sym it)
            (find-replace_self i e s.memories m there) in
        (
          subst (λ n. n ≤ 1) (sym (copies-replace i id e s.memories)) one,
          rw found (Agrees-append i (edited e m) s.history _ it refl refl),
        )
  ]

  gone-Agrees :
      (rows : List Memory) (h : Option History)
      → copies i rows ≤ 1
      → Agrees (find_row i (delete_row i rows)) h
  gone-Agrees rows h one =
      rw (find-copies i (delete_row i rows) (omega (arith, copies-delete_self i rows, one))) tt

  pub deleted-IsAudited :
      (id : String) (m : Memory) (now : ℕ) (s : Store)
      → IsAudited i s
      → IsAudited i
          (record { memories = delete_row id s.memories; history = log_deleted id m now s.history })
  deleted-IsAudited id m now s (one, agree) = elim (Bool-cases (id == i)) [
    | inr other ↦ (
      omega (arith, copies-delete i id s.memories, one),
      rw (find-delete_row id i s.memories other) (Agrees-append_other i _ s.history _ other agree),
    )
    | inl same ↦
        let it : id ≡ i = (eq_iff id i).0 same in
        (
          omega (arith, copies-delete i id s.memories, one),
          subst
              (λ j.
                Agrees (find_row i (delete_row j s.memories))
                  (latest i (log_deleted id m now s.history)))
              (sym it) (gone-Agrees s.memories _ one),
        )
  ]

  pub removed-IsAudited :
      (id : String) (s : Store)
      → IsAudited i s
      → IsAudited i (record s { memories = delete_row id s.memories })
  removed-IsAudited id s (one, agree) = elim (Bool-cases (id == i)) [
    | inr other ↦ (
      omega (arith, copies-delete i id s.memories, one),
      rw (find-delete_row id i s.memories other) agree,
    )
    | inl same ↦
        let it : id ≡ i = (eq_iff id i).0 same in
        (
          omega (arith, copies-delete i id s.memories, one),
          subst (λ j. Agrees (find_row i (delete_row j s.memories)) (latest i s.history)) (sym it)
              (gone-Agrees s.memories _ one),
        )
  ]

  -- The tables after a transaction that may be aborted.
  abbrev pub Audited : Option Store → Type 0
  Audited none = Unit
  Audited (some s) = IsAudited i s

  pub update_live-Audited :
      (id : String) (e : Edit) (cutoff : ℕ) (s : Store) (r : Option Memory)
      → find_row id s.memories ≡ r
      → IsAudited i s
      → Audited (update_live id e cutoff s)
  unfolding update_live
  update_live-Audited id e cutoff s none at a = rw (at, Audited) tt
  update_live-Audited id e cutoff s (some m) at a = elim (Bool-cases (is_expired_at m cutoff)) [
    | inl late ↦ rw (at, late, Audited) tt
    | inr live ↦ rw (at, live, Audited) (write_edit-IsAudited id e m s at a)
  ]

  pub update_owned-Audited :
      (id owner : String) (e : Edit) (s : Store) (r : Option Memory)
      → find_row id s.memories ≡ r
      → IsAudited i s
      → Audited (update_owned id owner e s)
  unfolding update_owned
  update_owned-Audited id owner e s none at a = rw (at, Audited) tt
  update_owned-Audited id owner e s (some m) at a = elim (Bool-cases (is_owned owner m)) [
    | inl own ↦ rw (at, own, Audited) (write_edit-IsAudited id e m s at a)
    | inr not_own ↦ rw (at, not_own, Audited) tt
  ]

  pub delete_owned-Audited :
      (id owner : String) (now : ℕ) (s : Store) (r : Option Memory)
      → find_row id s.memories ≡ r
      → IsAudited i s
      → Audited (delete_owned id owner now s)
  unfolding delete_owned
  delete_owned-Audited id owner now s none at a = rw (at, Audited) tt
  delete_owned-Audited id owner now s (some m) at a = elim (Bool-cases (is_owned owner m)) [
    | inl own ↦ rw (at, own, Audited) (deleted-IsAudited id m now s a)
    | inr not_own ↦ rw (at, not_own, Audited) tt
  ]

  pub answer_update-IsAudited :
      (id : String) (read : ℕ) (s : Store) (r : Option Store)
      → IsAudited i s
      → Audited r
      → IsAudited i (answer_update id read r s).1
  unfolding answer_update
  answer_update-IsAudited id read s none a k = a
  answer_update-IsAudited id read s (some s') a k = k

  pub answer_delete-IsAudited :
      (id : String) (s : Store) (r : Option Store)
      → IsAudited i s
      → Audited r
      → IsAudited i (answer_delete id r s).1
  unfolding answer_delete
  answer_delete-IsAudited id s none a k = a
  answer_delete-IsAudited id s (some s') a k = k

  pub expire-IsAudited :
      (id : String) (cutoff : ℕ) (s : Store) (r : Option Memory)
      → find_row id s.memories ≡ r
      → IsAudited i s
      → IsAudited i (expire id cutoff s)
  unfolding expire
  expire-IsAudited id cutoff s none at a = rw (at, expire) a
  expire-IsAudited id cutoff s (some m) at a = elim (Bool-cases (is_expired_at m cutoff)) [
    | inl late ↦ rw (at, expire, late) (deleted-IsAudited id m cutoff s a)
    | inr live ↦ rw (at, expire, live) a
  ]

  created-IsAudited :
      (key : String) (embedding : List ℕ) (now : ℕ) (m : Memory) (s : Store)
      → find_row key s.memories ≡ none
      → IsAudited i s
      → Audited (create_memory key embedding now m s)
  unfolding create_memory
  created-IsAudited key embedding now m s at (one, agree) =
      let row : Memory = new_row key embedding now m in
      elim (Bool-cases (key == i)) [
        | inr other ↦
            let elsewhere : has_id i row ≡ false = new_row_id i key embedding now m ∙ other in
            rw (at, Audited)
              (
                omega (arith, copies-append_other i s.memories row elsewhere, one),
                rw (find-append i s.memories row elsewhere)
                    (Agrees-append_other i _ s.history _ other agree),
              )
        | inl same ↦
            let it : key ≡ i = (eq_iff key i).0 same in
            let here : has_id i row ≡ true = new_row_id i key embedding now m ∙ same in
            let free : find_row i s.memories ≡ none =
              subst (λ j. find_row j s.memories ≡ none) it at in
            rw (at, Audited)
              (
                omega (
                  arith,
                  copies-append_self i s.memories row here,
                  copies-find i s.memories free,
                ),
                rw (find-append_self i s.memories row here free)
                    (Agrees-append i row s.history _ it refl refl),
              )
      ]

  pub create_memory-Audited :
      (key : String) (embedding : List ℕ) (now : ℕ) (m : Memory) (s : Store) (r : Option Memory)
      → find_row key s.memories ≡ r
      → IsAudited i s
      → Audited (create_memory key embedding now m s)
  unfolding create_memory
  create_memory-Audited key embedding now m s none at a =
      created-IsAudited key embedding now m s at a
  create_memory-Audited key embedding now m s (some there) at a = rw (at, create_memory, Audited) tt
