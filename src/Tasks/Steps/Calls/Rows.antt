-- ===== src/Tasks/Steps/Calls/Rows.antt =====
-- The step under one key when rows are added and updated.
use surreal_memory_server.Common.{
  ℕ, String, false, Option, none, some, List, [], ◌∷◌, ◌++◌, ◌==◌, eq_iff, ◌≡◌, refl, sym, ap,
  subst, inl, inr, Bool-cases,
}
use surreal_memory_server.Tasks.Step.{TaskStep, TaskStepStatus}
use surreal_memory_server.Tasks.Steps.{
  Tables, find_task_step_by_key, create_step, create_all, insert_step, unless_known, set_step,
  update_steps,
}

find-grown :
    (key : String) (s x : TaskStep) (rows : List TaskStep)
    → find_task_step_by_key key rows ≡ some s
    → find_task_step_by_key key (rows ++ x ∷ []) ≡ some s
unfolding find_task_step_by_key
find-grown key s x [] h = cc (h)
find-grown key s x (r ∷ rest) h = elim (Bool-cases (r.idempotency_key == key)) [
  | inl here ↦ rw here (rw here at h)
  | inr other ↦ rw other (find-grown key s x rest (rw other at h))
]

-- Rows that may have been added to keep the step.
create_step-find :
    (key : String) (s x : TaskStep) (rows : List TaskStep) (found : Option TaskStep)
    → find_task_step_by_key x.idempotency_key rows ≡ found
    → find_task_step_by_key key rows ≡ some s
    → (rows' : List TaskStep) → create_step x rows ≡ some rows'
    → find_task_step_by_key key rows' ≡ some s
unfolding create_step
create_step-find key s x rows (some y) e h rows' made =
    let clash : none ≡ some rows' = rw (e, create_step) at made in cc (clash)
create_step-find key s x rows none e h rows' made =
    let same : some (rows ++ x ∷ []) ≡ some rows' = rw (e, create_step) at made in
    subst (λ l. find_task_step_by_key key l ≡ some s) (cc (same)) (find-grown key s x rows h)

after_create-find :
    (key : String) (s x : TaskStep) (rows : List TaskStep) (r : Option (List TaskStep))
    → find_task_step_by_key key rows ≡ some s
    → create_step x rows ≡ r
    → find_task_step_by_key key (elim r [ none ↦ rows | some rows' ↦ rows' ]) ≡ some s
after_create-find key s x rows none h e = h
after_create-find key s x rows (some rows') h e = create_step-find key s x rows _ refl h rows' e

create_all-find :
    (key : String) (s : TaskStep) (others rows : List TaskStep)
    → find_task_step_by_key key rows ≡ some s
    → find_task_step_by_key key (create_all others rows) ≡ some s
unfolding create_all
create_all-find key s [] rows h = h
create_all-find key s (x ∷ others) rows h =
    create_all-find key s others _ (after_create-find key s x rows _ h refl)

pub unless_known-find :
    (key : String) (s linked : TaskStep) (others : List TaskStep) (known : Option TaskStep)
    (t : Tables)
    → find_task_step_by_key key t.steps ≡ some s
    → find_task_step_by_key key (unless_known linked others known t).1.steps ≡ some s
unfolding unless_known insert_step
unless_known-find key s linked others (some existing) t h = h
unless_known-find key s linked others none t h = go (create_step linked _) refl
  where
    before : find_task_step_by_key key (create_all others t.steps) ≡ some s
    before = create_all-find key s others t.steps h

    go :
        (r : Option (List TaskStep))
        → create_step linked (create_all others t.steps) ≡ r
        → find_task_step_by_key key (insert_step linked r (create_all others t.steps) t).1.steps
          ≡ some s
    go none e = before
    go (some rows') e =
        create_step-find key s linked (create_all others t.steps) _ refl before rows' e

pub find-update :
    (key : String) (status : TaskStepStatus) (result error : Option String) (now : ℕ)
    (rows : List TaskStep) (s : TaskStep)
    → find_task_step_by_key key rows ≡ some s
    → find_task_step_by_key key (update_steps key status result error now rows)
      ≡ some (set_step status result error now s)
unfolding find_task_step_by_key update_steps set_step
find-update key status result error now [] s h = absurd (cc (h))
find-update key status result error now (r ∷ rest) s h =
    elim (Bool-cases (r.idempotency_key == key)) [
      | inl here ↦
          let same : r ≡ s = cc (rw here at h) in
          rw (here, here) (ap (λ x. some (set_step status result error now x)) same)
      | inr other ↦
          rw (other, other) (find-update key status result error now rest s (rw other at h))
    ]

pub find-update_other :
    (key k : String) (status : TaskStepStatus) (result error : Option String) (now : ℕ)
    (rows : List TaskStep)
    → (k == key) ≡ false
    → find_task_step_by_key key (update_steps k status result error now rows)
      ≡ find_task_step_by_key key rows
unfolding find_task_step_by_key update_steps set_step
find-update_other key k status result error now [] apart = refl
find-update_other key k status result error now (r ∷ rest) apart =
    elim (Bool-cases (r.idempotency_key == k)) [
      | inl here ↦
          let it : r.idempotency_key ≡ k = (eq_iff r.idempotency_key k).0 here in
          let elsewhere : (r.idempotency_key == key) ≡ false =
            subst (λ x. (x == key) ≡ false) (sym it) apart in
          rw (here, elsewhere) (find-update_other key k status result error now rest apart)
      | inr other ↦ elim (Bool-cases (r.idempotency_key == key)) [
        | inl there ↦ rw (other, there) refl
        | inr elsewhere ↦
            rw (other, elsewhere) (find-update_other key k status result error now rest apart)
      ]
    ]
