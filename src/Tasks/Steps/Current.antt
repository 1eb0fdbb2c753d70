-- ===== src/Tasks/Steps/Current.antt =====
-- The current step is a first one among the steps that are still open.
use surreal_memory_server.Common.{
  ℕ, zero, suc, get_elem?, String, Bool, true, false, not, ◌&&◌, ◌||◌, ◌↔◌, Option, none, some,
  List, [], ◌∷◌, All, All-map, keep-holds, keep-All, All-keep, keep, Result, ok, err, ◌≡◌, ◌≢◌, ◌⊎◌,
  refl, sym, ap, subst, ◌∙◌, ◌≤◌, ◌==◌, eq_iff, inl, inr, Bool-cases, arith,
}
use surreal_memory_server.Common.Sort.{
  insert_sorted, sort_by, insert_sorted-All, sort_by-All, All-sort_by,
}
use surreal_memory_server.Tasks.Step.{
  TaskStep, TaskStepStatus, pending, running, completed, failed, skipped, as_str,
}
use surreal_memory_server.Tasks.Steps.{
  Tables, StepError, stream_id, by_ordinal, is_of, is_open, first_of, get_current_step,
}

abbrev Later : TaskStep → TaskStep → Type 0
Later s r = s.ordinal ≤ r.ordinal

abbrev IsSorted : List TaskStep → Type 0
IsSorted [] = Unit
IsSorted (s ∷ rest) = All (Later s) rest × IsSorted rest

All-trans :
    (s r : TaskStep) (rest : List TaskStep) → Later s r → All (Later r) rest → All (Later s) rest
All-trans s r [] h all = tt
All-trans s r (q ∷ rest) h (first, all) = (omega arith, All-trans s r rest h all)

module _ (tie : TaskStep → TaskStep → Bool) where
  by_ordinal-before : (s r : TaskStep) → by_ordinal tie s r ≡ true → Later s r
  by_ordinal-before s r h = ground arith

  by_ordinal-after : (s r : TaskStep) → by_ordinal tie s r ≡ false → Later r s
  by_ordinal-after s r h = ground arith

  insert_sorted-IsSorted :
      (x : TaskStep) (rows : List TaskStep)
      → IsSorted rows
      → IsSorted (insert_sorted (by_ordinal tie) x rows)
  unfolding insert_sorted
  insert_sorted-IsSorted x [] h = (tt, tt)
  insert_sorted-IsSorted x (r ∷ rest) (first, h) = elim (Bool-cases (by_ordinal tie x r)) [
    | inl before ↦
        let le : Later x r = by_ordinal-before x r before in
        rw before ((le, All-trans x r rest le first), (first, h))
    | inr after ↦ rw after (
      insert_sorted-All (Later r) (by_ordinal tie) x rest (by_ordinal-after x r after) first,
      insert_sorted-IsSorted x rest h,
    )
  ]

  pub sort_by-IsSorted : (rows : List TaskStep) → IsSorted (sort_by (by_ordinal tie) rows)
  unfolding sort_by
  sort_by-IsSorted [] = tt
  sort_by-IsSorted (x ∷ rows) = insert_sorted-IsSorted x _ (sort_by-IsSorted rows)

-- A step that is over, and needs no more work.
abbrev pub IsOver : TaskStepStatus → Type 0
IsOver completed = Unit
IsOver skipped = Unit
IsOver pending = ⊥
IsOver running = ⊥
IsOver failed = ⊥

-- A step of another stream, or one that is over.
abbrev pub IsPassed : String → TaskStep → Type 0
IsPassed sid s = (s.task_stream_id ≢ some sid) ⊎ IsOver s.status

-- A row at some place.
abbrev pub IsIn : List TaskStep → TaskStep → Type 0
IsIn rows s = (i : ℕ) × (get_elem? i rows ≡ some s)

-- What a current step of a stream is, among all rows.
abbrev pub IsCurrent : String → List TaskStep → Option TaskStep → Type 0
IsCurrent sid rows none = All (IsPassed sid) rows
IsCurrent sid rows (some s) =
    (s.task_stream_id ≡ some sid)
    × ¬ IsOver s.status
    × IsIn rows s
    × All (λ r. IsPassed sid r ⊎ (s.ordinal ≤ r.ordinal)) rows

-- The answer for a stream that is found, or not found.
abbrev pub IsAnswer :
    List TaskStep → Result String StepError → Result (Option TaskStep) StepError → Type 0
IsAnswer rows (err e) (err f) = f ≡ e
IsAnswer rows (err e) (ok current) = ⊥
IsAnswer rows (ok sid) (err e) = ⊥
IsAnswer rows (ok sid) (ok current) = IsCurrent sid rows current

All-IsIn : (rows : List TaskStep) → All (IsIn rows) rows
All-IsIn [] = tt
All-IsIn (s ∷ rows) = ((zero, refl), All-map rows (λ r (i, at). (suc i, at)) (All-IsIn rows))

abbrev is_next : String → TaskStep → Bool
is_next sid s = is_of sid s.task_stream_id && is_open s

status_lem :
    (status : TaskStepStatus)
    → (not (as_str status == "completed" || as_str status == "skipped") ≡ true → ¬ IsOver status)
      × (not (as_str status == "completed" || as_str status == "skipped") ≡ false → IsOver status)
unfolding as_str
status_lem pending = (λ h over. over, λ h. cc (h))
status_lem running = (λ h over. over, λ h. cc (h))
status_lem completed = (λ h over. cc (h), λ h. tt)
status_lem failed = (λ h over. over, λ h. cc (h))
status_lem skipped = (λ h over. cc (h), λ h. tt)

pub is_of_iff : (sid : String) (i : Option String) → (is_of sid i ≡ true) ↔ (i ≡ some sid)
is_of_iff sid none = (λ h. cc (h), λ h. cc (h))
is_of_iff sid (some i) =
    (λ h. ap some ((eq_iff i sid).0 h), λ h. let same : i ≡ sid = cc (h) in (eq_iff i sid).1 same)

next_true :
    (sid : String) (s : TaskStep)
    → is_next sid s ≡ true
    → (s.task_stream_id ≡ some sid) × ¬ IsOver s.status
unfolding is_open
next_true sid s h = elim (Bool-cases (is_of sid s.task_stream_id)) [
  | inl of_stream ↦
      ((is_of_iff sid s.task_stream_id).0 of_stream, (status_lem s.status).0 (rw of_stream at h))
  | inr elsewhere ↦ let clash : false ≡ true = rw elsewhere at h in cc (clash)
]

next_false : (sid : String) (s : TaskStep) → is_next sid s ≡ false → IsPassed sid s
unfolding is_open
next_false sid s h = elim (Bool-cases (is_of sid s.task_stream_id)) [
  | inl of_stream ↦ inr ((status_lem s.status).1 (rw of_stream at h))
  | inr elsewhere ↦ inl (λ same.
      let clash : true ≡ false = sym ((is_of_iff sid s.task_stream_id).1 same) ∙ elsewhere in
      cc (clash))
]

module _ (tie : TaskStep → TaskStep → Bool) where
  abbrev candidates : String → List TaskStep → List TaskStep
  candidates sid rows = sort_by (by_ordinal tie) (keep (is_next sid) rows)

  -- What holds of all candidates, back at the rows.
  All-candidates :
      (P : TaskStep → Type 0) (sid : String) (rows : List TaskStep)
      → All P (candidates sid rows)
      → All (λ r. IsPassed sid r ⊎ P r) rows
  All-candidates P sid rows all =
      All-map rows
        (λ r h. elim h [ inl passed ↦ inl (next_false sid r passed) | inr holds ↦ inr holds ])
        (All-keep (is_next sid) P rows
          (All-sort_by P (by_ordinal tie) (keep (is_next sid) rows) all))

  candidates-All :
      (P : TaskStep → Type 0) (sid : String) (rows : List TaskStep)
      → All P (keep (is_next sid) rows)
      → All P (candidates sid rows)
  candidates-All P sid rows all = sort_by-All P (by_ordinal tie) _ all

  first-IsCurrent :
      (sid : String) (rows ordered : List TaskStep)
      → candidates sid rows ≡ ordered
      → IsCurrent sid rows (first_of ordered)
  first-IsCurrent sid rows [] e =
      All-map rows (λ r h. elim h [ inl passed ↦ passed | inr none_left ↦ absurd none_left ])
        (All-candidates (λ r. ⊥) sid rows (rw e tt))
  first-IsCurrent sid rows (s ∷ rest) e =
      let next : All (λ r. is_next sid r ≡ true) (s ∷ rest) =
        subst (λ l. All (λ r. is_next sid r ≡ true) l) e
          (candidates-All _ sid rows (keep-holds (is_next sid) rows)) in
      let stored : All (IsIn rows) (s ∷ rest) =
        subst (λ l. All (IsIn rows) l) e
          (candidates-All _ sid rows (keep-All (is_next sid) _ rows (All-IsIn rows))) in
      let sorted : IsSorted (s ∷ rest) =
        subst IsSorted e (sort_by-IsSorted tie (keep (is_next sid) rows)) in
      let (of_stream, still_open) = next_true sid s next.0 in
      (
        of_stream,
        still_open,
        stored.0,
        All-candidates (λ r. s.ordinal ≤ r.ordinal) sid rows
            (subst (λ l. All (λ r. s.ordinal ≤ r.ordinal) l) (sym e) (omega arith, sorted.0)),
      )

  -- The current step of a stream is one of the stored steps of the stream, and neither completed nor
  -- skipped; every step of the stream that is neither has at least its ordinal. Where there
  -- is none, all steps of the stream are completed or skipped. The call fails just where the stream
  -- is not found or has no id, with that error. All this holds in
  -- whatever order the database puts steps with one ordinal.
  pub get_current_step-first :
      (name : String) (user agent : Option String) (t : Tables)
      → IsAnswer t.steps (stream_id name user agent t) (get_current_step tie name user agent t)
  unfolding get_current_step
  get_current_step-first name user agent t = by_stream (stream_id name user agent t) refl
    where
      by_stream :
          (r : Result String StepError)
          → stream_id name user agent t ≡ r
          → IsAnswer t.steps r (get_current_step tie name user agent t)
      by_stream (err e) at = rw (at, get_current_step) refl
      by_stream (ok sid) at =
          rw (at, get_current_step) (first-IsCurrent sid t.steps (candidates sid t.steps) refl)
