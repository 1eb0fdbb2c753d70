-- ===== src/Retry/Once.antt =====
-- A write that is retried takes effect as one of its attempts.
use surreal_memory_server.Common.{
  ℕ, zero, suc, Bool, true, false, ◌&&◌, ◌||◌, not, Option, none, some, List, [], ◌∷◌, ◌+◌, Result,
  ok, err, ◌≡◌, refl, subst, ◌≤◌, ◌<◌, inl, inr, Bool-cases, arith, any, all,
}
use surreal_memory_server.Retry.{
  DbError, conflict, not_executed, other, WriteError, still_conflicting, failed,
  is_retryable_conflict, is_not_executed, gives_up, write_from, write_retrying_conflicts,
  find_error, select_error,
}

module _ {S T : Type 0} (attempt : ℕ → S → Result T DbError × S) (clock : ℕ → ℕ)
    (deadline : ℕ) where
  -- What the caller gets for the answer of the last attempt, the one with number `n`.
  abbrev pub reply : ℕ → Result T DbError → Result T WriteError
  reply n (ok v) = ok v
  reply n (err conflict) = err (still_conflicting (n + 1))
  reply n (err not_executed) = err (failed not_executed)
  reply n (err (other text)) = err (failed (other text))

  -- The answer and the state are those of one attempt on the first state.
  abbrev pub IsOneAttempt : ℕ → S → Option (Result T WriteError × S) → Type 0
  IsOneAttempt first s r =
      (n : ℕ) × (first ≤ n) × (n < 16) × (r ≡ some (reply n (attempt n s).0, (attempt n s).1))

  give_up_late : (n : ℕ) → gives_up attempt clock deadline (n + 1) ≡ false → n + 1 < 16
  unfolding gives_up
  give_up_late n h = ground arith

  by_answer :
      (rounds conflicts : ℕ) (s : S) (a : Result T DbError)
      → ((n : ℕ) (u : S) → (attempt n u).0 ≡ err conflict → (attempt n u).1 ≡ u)
      → conflicts < 16
      → ((u : S)
          → conflicts + 1 < 16
          → IsOneAttempt
              (conflicts + 1)
              u
              (write_from attempt clock deadline rounds (conflicts + 1) u))
      → (attempt conflicts s).0 ≡ a
      → IsOneAttempt conflicts s (write_from attempt clock deadline (suc rounds) conflicts s)
  unfolding write_from is_retryable_conflict
  by_answer rounds conflicts s (ok v) quiet low ih e =
      (conflicts, omega arith, low, rw (e, write_from) refl)
  by_answer rounds conflicts s (err not_executed) quiet low ih e =
      (conflicts, omega arith, low, rw (e, write_from) refl)
  by_answer rounds conflicts s (err (other text)) quiet low ih e =
      (conflicts, omega arith, low, rw (e, write_from) refl)
  by_answer rounds conflicts s (err conflict) quiet low ih e =
      elim (Bool-cases (gives_up attempt clock deadline (conflicts + 1))) [
        | inl late ↦ (conflicts, omega arith, low, rw (e, write_from, late) refl)
        | inr soon ↦
            let same : (attempt conflicts s).1 ≡ s = quiet conflicts s e in
            let (n, later, below, answer) = ih s (give_up_late conflicts soon) in
            (n, omega arith, below, rw (e, write_from, soon, same) answer)
      ]

  write_from-IsOneAttempt :
      (rounds conflicts : ℕ) (s : S)
      → ((n : ℕ) (u : S) → (attempt n u).0 ≡ err conflict → (attempt n u).1 ≡ u)
      → 16 ≤ conflicts + rounds
      → conflicts < 16
      → IsOneAttempt conflicts s (write_from attempt clock deadline rounds conflicts s)
  write_from-IsOneAttempt zero conflicts s quiet enough low = absurd (omega arith)
  write_from-IsOneAttempt (suc rounds) conflicts s quiet enough low =
      by_answer rounds conflicts s _ quiet low
        (λ u below. write_from-IsOneAttempt rounds (conflicts + 1) u quiet (omega arith) below) refl

  -- A write under retries returns, whatever the database answers, after at most 16 attempts; if a
  -- conflict means that nothing was applied, its answer and its effect are those of a single
  -- attempt on the state at its start.
  pub write_retrying_conflicts-IsOneAttempt :
      (s : S)
      → ((n : ℕ) (u : S) → (attempt n u).0 ≡ err conflict → (attempt n u).1 ≡ u)
      → IsOneAttempt 0 s (write_retrying_conflicts attempt clock deadline s)
  unfolding write_retrying_conflicts
  write_retrying_conflicts-IsOneAttempt s quiet =
      write_from-IsOneAttempt 16 0 s quiet (omega arith) (omega arith)

find_error-holds :
    (p : DbError → Bool) (errors : List DbError) (e : DbError)
    → find_error p errors ≡ some e
    → p e ≡ true
unfolding find_error
find_error-holds p [] e h = absurd (cc (h))
find_error-holds p (f ∷ errors) e h = elim (Bool-cases (p f)) [
  | inl yes_f ↦
      let same : some f ≡ some e = rw yes_f at h in subst (λ g. p g ≡ true) (cc (same)) yes_f
  | inr no_f ↦ find_error-holds p errors e (rw no_f at h)
]

abbrev is_real : DbError → Bool
is_real e = not (is_not_executed e) && not (is_retryable_conflict e)

abbrev is_abort : DbError → Bool
is_abort e = is_retryable_conflict e || is_not_executed e

find_error-none :
    (errors : List DbError)
    → find_error (λ e. is_real e) errors ≡ none
    → all (λ e. is_abort e) errors ≡ true
unfolding find_error is_retryable_conflict is_not_executed
find_error-none [] h = refl
find_error-none (conflict ∷ errors) h = find_error-none errors h
find_error-none (not_executed ∷ errors) h = find_error-none errors h
find_error-none (other text ∷ errors) h = absurd (cc (h))

-- A response is reported as a conflict, and its write sent again, only if every error in it is a
-- conflict or the mark of a statement that was not executed.
pub select_error-conflict :
    (errors : List DbError)
    → select_error errors ≡ some conflict
    → all (λ e. is_abort e) errors ≡ true
unfolding select_error
select_error-conflict errors h =
    elim (Bool-cases (any (λ e. is_retryable_conflict e) errors && all (λ e. is_abort e) errors)) [
      | inl abort ↦ ground arith
      | inr real ↦ by_real (find_error (λ e. is_real e) errors) refl real
    ]
  where
    by_real :
        (r : Option DbError)
        → find_error (λ e. is_real e) errors ≡ r
        → (any (λ e. is_retryable_conflict e) errors && all (λ e. is_abort e) errors) ≡ false
        → all (λ e. is_abort e) errors ≡ true
    by_real none e real = find_error-none errors e
    by_real (some f) e real =
        let answer : some f ≡ some conflict = rw (select_error, real, e) at h in
        let same : f ≡ conflict = cc (answer) in
        let real_f : is_real f ≡ true = find_error-holds (λ e. is_real e) errors f e in
        let clash : false ≡ true = subst (λ g. is_real g ≡ true) same real_f in absurd (cc (clash))
