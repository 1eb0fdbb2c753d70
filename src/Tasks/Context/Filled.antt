-- ===== src/Tasks/Context/Filled.antt =====
-- The memories that are chosen for a prompt fit its budget.
use surreal_memory_server.Common.{
  All, All-map, keep-holds, Option, none, some, true, false, ◌&&◌, ◌⊎◌, eq_iff, ℕ, String, Bool,
  List, [], ◌∷◌, ◌++◌, ◌+◌, length, leb, leb→le, ◌≡◌, refl, ◌∙◌, sym, ◌≤◌, Bool-cases, inl, inr,
  arith, Result, ok, err, ap, subst,
}
use surreal_memory_server.Common.Sort.{sort_by-All}
use surreal_memory_server.Memory.Rows.{Memory, Store, is_active, is_live}
use surreal_memory_server.Tasks.Steps.{Tables, StepError, stream_id, is_of}
use surreal_memory_server.Tasks.Steps.Current.{is_of_iff}
use surreal_memory_server.Tasks.Context.{
  ContextWindow, tokens_of, fill, budget_of, get_context, get_context_for_task, live_memories_of,
}

unfoldable pub total_tokens : List Memory → ℕ
total_tokens [] = 0
total_tokens (m ∷ ms) = tokens_of m + total_tokens ms

-- The first list is what is left of the second when elements are left out.
pub data Sublist {ℓ} {A : Type ℓ} : List A → List A → Type ℓ where
  nothing : Sublist [] []
  without : {x : A} {xs ys : List A} → Sublist xs ys → Sublist xs (x ∷ ys)
  with_it : {x : A} {xs ys : List A} → Sublist xs ys → Sublist (x ∷ xs) (x ∷ ys)

-- What the loop adds to the memories `included` so far, of `used` tokens.
abbrev Filled : ℕ → List Memory → List Memory → ℕ → ℕ → List Memory × ℕ × ℕ → Type 0
Filled budget rows included used omitted (all, used', omitted') =
    (added : List Memory) × (all ≡ included ++ added)
    × Sublist added rows
    × (used' ≡ used + total_tokens added)
    × (used' ≤ budget)
    × (omitted' + length added ≡ omitted + length rows)

append-nil : (xs : List Memory) → xs ≡ xs ++ []
append-nil [] = refl
append-nil (x ∷ xs) = ap (λ ys. x ∷ ys) (append-nil xs)

append_one :
    (xs : List Memory) (y : Memory) (ys : List Memory) → (xs ++ y ∷ []) ++ ys ≡ xs ++ y ∷ ys
append_one [] y ys = refl
append_one (x ∷ xs) y ys = ap (λ zs. x ∷ zs) (append_one xs y ys)

fill-Filled :
    (budget : ℕ) (rows included : List Memory) (used omitted : ℕ)
    → used ≤ budget
    → Filled budget rows included used omitted (fill budget rows included used omitted)
unfolding fill total_tokens
fill-Filled budget [] included used omitted h =
    ([], append-nil included, nothing, omega arith, h, omega arith)
fill-Filled budget (m ∷ rest) included used omitted h =
    elim (Bool-cases (leb (used + tokens_of m) budget)) [
      | inl fits ↦
          let (added, all, part, is, within, count) =
            fill-Filled budget rest (included ++ m ∷ []) (used + tokens_of m) omitted
              (leb→le _ _ fits) in
          rw fits (
            m ∷ added,
            all ∙ append_one included m added,
            with_it part,
            omega arith,
            within,
            omega arith,
          )
      | inr over ↦
          let (added, all, part, is, within, count) =
            fill-Filled budget rest included used (omitted + 1) h in
          rw over (added, all, without part, is, within, omega arith)
    ]

-- The context of a stream: its memories are live ones of the stream, in the order of the query; the
-- tokens used are theirs and within the budget, which is the one given or the model's; and every
-- live memory is among them or counted as omitted.
abbrev pub FitsBudget : List Memory → Option ℕ → String → ContextWindow → Type 0
FitsBudget rows max_tokens model w =
    Sublist w.memories rows
    × (w.tokens_used ≡ total_tokens w.memories)
    × (w.tokens_used ≤ w.token_budget)
    × (w.memories_omitted + length w.memories ≡ length rows)
    × (w.token_budget ≡ budget_of max_tokens model)

-- A memory of the stream that is active and not expired.
abbrev pub IsLiveOf : String → ℕ → Memory → Type 0
IsLiveOf sid now m =
    (m.task_stream_id ≡ some sid)
    × ((m.status ≡ none) ⊎ (m.status ≡ some "active"))
    × ((m.valid_until ≡ none) ⊎ ((v : ℕ) × (m.valid_until ≡ some v) × (now ≤ v)))

active_iff :
    (status : Option String) → is_active status ≡ true → (status ≡ none) ⊎ (status ≡ some "active")
unfolding is_active
active_iff none h = inl refl
active_iff (some s) h = inr (ap some ((eq_iff s "active").0 h))

in_time :
    (until : Option ℕ) (now : ℕ)
    → elim until [ none ↦ true | some v ↦ leb now v ] ≡ true
    → (until ≡ none) ⊎ ((v : ℕ) × (until ≡ some v) × (now ≤ v))
in_time none now h = inl refl
in_time (some v) now h = inr (v, refl, leb→le now v h)

both_true : (a b : Bool) → (a && b) ≡ true → (a ≡ true) × (b ≡ true)
both_true true b h = (refl, h)
both_true false b h = cc (h)

selected-IsLiveOf :
    (sid : String) (now : ℕ) (m : Memory)
    → (is_of sid m.task_stream_id && is_live m now) ≡ true
    → IsLiveOf sid now m
unfolding is_live
selected-IsLiveOf sid now m h =
    let (of_stream, live) = both_true _ _ h in
    let (active, valid) = both_true _ _ live in
    (
      (is_of_iff sid m.task_stream_id).0 of_stream,
      active_iff m.status active,
      in_time m.valid_until now valid,
    )

live_memories_of-All :
    (earlier : Memory → Memory → Bool) (sid : String) (now : ℕ) (s : Store)
    → All (IsLiveOf sid now) (live_memories_of earlier sid now s)
unfolding live_memories_of
live_memories_of-All earlier sid now s =
    sort_by-All _ earlier _
      (All-map _ (λ m h. selected-IsLiveOf sid now m h) (keep-holds _ s.memories))

All-Sublist : (P : Memory → Type 0) {xs ys : List Memory} → Sublist xs ys → All P ys → All P xs
All-Sublist P nothing hs = tt
All-Sublist P (without part) (h, hs) = All-Sublist P part hs
All-Sublist P (with_it part) (h, hs) = (h, All-Sublist P part hs)

get_context-FitsBudget :
    (rows : List Memory) (model : String) (max_tokens : Option ℕ)
    → FitsBudget rows max_tokens model (get_context rows model max_tokens)
unfolding get_context
get_context-FitsBudget rows model max_tokens =
    from_empty _ rows _ (fill-Filled (budget_of max_tokens model) rows [] 0 0 (omega arith))
  where
    from_empty :
        (budget : ℕ) (rows : List Memory) (filled : List Memory × ℕ × ℕ)
        → Filled budget rows [] 0 0 filled
        → Sublist filled.0 rows
          × (filled.1 ≡ total_tokens filled.0)
          × (filled.1 ≤ budget)
          × (filled.2 + length filled.0 ≡ length rows)
          × (budget ≡ budget)
    from_empty budget rows filled (added, all, part, is, within, count) = (
      subst (λ xs. Sublist xs rows) (sym all) part,
      omega (arith, ap total_tokens all),
      within,
      omega (arith, ap length all),
      refl,
    )

-- A context window has memories of the stream that are active and not expired, in the order of the
-- query; its tokens are the sum of theirs and within the budget, which is the one given or the
-- model's; and the live memories that it leaves out are counted.
pub get_context_for_task-FitsBudget :
    (earlier : Memory → Memory → Bool) (name : String) (user agent : Option String) (model : String)
    (max_tokens : Option ℕ) (now : ℕ) (t : Tables) (s : Store) (w : ContextWindow)
    → get_context_for_task earlier name user agent model max_tokens now t s ≡ ok w
    → (sid : String) × (stream_id name user agent t ≡ ok sid)
      × FitsBudget (live_memories_of earlier sid now s) max_tokens model w
      × All (IsLiveOf sid now) w.memories
unfolding get_context_for_task
get_context_for_task-FitsBudget earlier name user agent model max_tokens now t s w h =
    by_stream (stream_id name user agent t) refl h
  where
    by_stream :
        (r : Result String StepError)
        → stream_id name user agent t ≡ r
        → get_context_for_task earlier name user agent model max_tokens now t s ≡ ok w
        → (sid : String) × (stream_id name user agent t ≡ ok sid)
          × FitsBudget (live_memories_of earlier sid now s) max_tokens model w
          × All (IsLiveOf sid now) w.memories
    by_stream (err e) eq h =
        let clash : ◌≡◌ {A = Result ContextWindow StepError} (err e) (ok w) =
          rw (eq, get_context_for_task) at h in
        absurd (cc (clash))
    by_stream (ok sid) eq h =
        let rows : List Memory = live_memories_of earlier sid now s in
        let answer : ◌≡◌ {A = Result ContextWindow StepError}
            (ok (get_context rows model max_tokens)) (ok w) =
          rw (eq, get_context_for_task) at h in
        let same : get_context rows model max_tokens ≡ w = cc (answer) in
        let fits : FitsBudget rows max_tokens model w =
          subst (FitsBudget rows max_tokens model) same
            (get_context-FitsBudget rows model max_tokens) in
        (sid, eq, fits, All-Sublist _ fits.0 (live_memories_of-All earlier sid now s))
