-- ===== src/Tasks/Steps/Calls/Kept.antt =====
-- What any sequence of calls keeps: the streams, and the step under one key.
use surreal_memory_server.Common.{
  ℕ, String, true, false, All, Option, none, some, List, [], ◌∷◌, Result, ok, err, ◌==◌, eq_iff,
  ◌≡◌, refl, subst, ◌∙◌, inl, inr, Bool-cases,
}
use surreal_memory_server.Tasks.Step.{TaskStep, TaskStepStatus, completed}
use surreal_memory_server.Tasks.Steps.{
  Tables, StepError, stream_id, find_task_step_by_key, insert_step, unless_known, add_task_step,
  set_step, update_task_step_status, complete_found, complete_step, is_completed,
}
use surreal_memory_server.Tasks.Steps.Calls.{
  StepCall, adds, updates, completes, run_call, run_calls, Spares,
}
use surreal_memory_server.Tasks.Steps.Calls.Rows.{find-update, find-update_other, unless_known-find}

module _ (name : String) (user agent : Option String) where
  pub stream_id-cong :
      (t t' : Tables)
      → t'.streams ≡ t.streams
      → stream_id name user agent t' ≡ stream_id name user agent t
  unfolding stream_id
  stream_id-cong t t' h = rw h refl

-- The step is the same one: only its status, result, error and the moments of its work may differ.
abbrev pub IsSameStep : TaskStep → TaskStep → Type 0
IsSameStep s s' =
    (s'.id ≡ s.id)
    × (s'.task_stream_id ≡ s.task_stream_id)
    × (s'.ordinal ≡ s.ordinal)
    × (s'.name ≡ s.name)
    × (s'.description ≡ s.description)
    × (s'.idempotency_key ≡ s.idempotency_key)
    × (s'.created_at ≡ s.created_at)

set_step-IsSameStep :
    (status : TaskStepStatus) (result error : Option String) (now : ℕ) (s : TaskStep)
    → IsSameStep s (set_step status result error now s)
unfolding set_step
set_step-IsSameStep status result error now s = (refl, refl, refl, refl, refl, refl, refl)

-- What the calls keep: the streams, and the step under a key, as the same step or as it is.
abbrev pub Kept : String → TaskStep → Tables → Tables → Type 0
Kept key s t t' =
    (t'.streams ≡ t.streams)
    × ((s' : TaskStep) × (find_task_step_by_key key t'.steps ≡ some s') × IsSameStep s s')

abbrev Unchanged : String → TaskStep → Tables → Tables → Type 0
Unchanged key s t t' = (t'.streams ≡ t.streams) × (find_task_step_by_key key t'.steps ≡ some s)

unchanged-Kept :
    (key : String) (s : TaskStep) (t t' : Tables) → Unchanged key s t t' → Kept key s t t'
unchanged-Kept key s t t' (streams, found) =
    (streams, (s, found, (refl, refl, refl, refl, refl, refl, refl)))

insert_step-streams :
    (linked : TaskStep) (r : Option (List TaskStep)) (rows : List TaskStep) (t : Tables)
    → (insert_step linked r rows t).1.streams ≡ t.streams
unfolding insert_step
insert_step-streams linked none rows t = refl
insert_step-streams linked (some rows') rows t = refl

unless_known-streams :
    (linked : TaskStep) (others : List TaskStep) (known : Option TaskStep) (t : Tables)
    → (unless_known linked others known t).1.streams ≡ t.streams
unfolding unless_known
unless_known-streams linked others (some existing) t = refl
unless_known-streams linked others none t = insert_step-streams linked _ _ t

module _ (key : String) (s : TaskStep) (t : Tables)
    (found : find_task_step_by_key key t.steps ≡ some s) where
  adds-Unchanged :
      (name : String) (user agent : Option String) (step : TaskStep) (k : String) (now : ℕ)
      (others : List TaskStep) (r : Result String StepError)
      → stream_id name user agent t ≡ r
      → Unchanged key s t (add_task_step name user agent step k now others t).1
  unfolding add_task_step
  adds-Unchanged name user agent step k now others (err e) at = rw (at, add_task_step) (refl, found)
  adds-Unchanged name user agent step k now others (ok sid) at =
      rw (at, add_task_step)
        (unless_known-streams _ others _ t, unless_known-find key s _ others _ t found)

  updates-Kept :
      (k : String) (status : TaskStepStatus) (result error : Option String) (now : ℕ)
      → Kept key s t (update_task_step_status k status result error now t).1
  unfolding update_task_step_status
  updates-Kept k status result error now = elim (Bool-cases (k == key)) [
    | inl here ↦
        let it : k ≡ key = (eq_iff k key).0 here in
        rw it (
          refl,
          (
            set_step status result error now s,
            find-update key status result error now t.steps s found,
            set_step-IsSameStep status result error now s,
          ),
        )
    | inr apart ↦
        unchanged-Kept key s t _
          (refl, find-update_other key k status result error now t.steps apart ∙ found)
  ]

  completes-Kept :
      (k : String) (result : Option String) (now : ℕ) (known : Option TaskStep)
      → Kept key s t (complete_found k result now (λ u. u) known t).1
  unfolding complete_found
  completes-Kept k result now none = unchanged-Kept key s t t (refl, found)
  completes-Kept k result now (some x) = elim (Bool-cases (is_completed x.status)) [
    | inl done ↦ rw done (unchanged-Kept key s t t (refl, found))
    | inr unfinished ↦ rw unfinished (updates-Kept k completed result none now)
  ]

  run_call-Kept : (c : StepCall) → Kept key s t (run_call c t)
  unfolding complete_step
  run_call-Kept (adds name user agent step k now others) =
      unchanged-Kept key s t _ (adds-Unchanged name user agent step k now others _ refl)
  run_call-Kept (updates k status result error now) = updates-Kept k status result error now
  run_call-Kept (completes k result now) = completes-Kept k result now _

  module _ (finished : is_completed s.status ≡ true) where
    updates-Unchanged :
        (k : String) (status : TaskStepStatus) (result error : Option String) (now : ℕ)
        → (k == key) ≡ false
        → Unchanged key s t (update_task_step_status k status result error now t).1
    unfolding update_task_step_status
    updates-Unchanged k status result error now apart =
        (refl, find-update_other key k status result error now t.steps apart ∙ found)

    completes-Unchanged :
        (k : String) (result : Option String) (now : ℕ) (known : Option TaskStep)
        → find_task_step_by_key k t.steps ≡ known
        → Unchanged key s t (complete_found k result now (λ u. u) known t).1
    unfolding complete_found
    completes-Unchanged k result now none at = (refl, found)
    completes-Unchanged k result now (some x) at = elim (Bool-cases (k == key)) [
      | inr apart ↦ elim (Bool-cases (is_completed x.status)) [
        | inl done ↦ rw done (refl, found)
        | inr unfinished ↦ rw unfinished (updates-Unchanged k completed result none now apart)
      ]
      | inl here ↦
          let it : k ≡ key = (eq_iff k key).0 here in
          let stored : find_task_step_by_key key t.steps ≡ some x =
            subst (λ j. find_task_step_by_key j t.steps ≡ some x) it at in
          let same : s ≡ x = cc (found, stored) in
          let done : is_completed x.status ≡ true =
            subst (λ y. is_completed y.status ≡ true) same finished in
          rw done (refl, found)
    ]

    run_call-Unchanged : (c : StepCall) → Spares key c → Unchanged key s t (run_call c t)
    unfolding complete_step
    run_call-Unchanged (adds name user agent step k now others) spares =
        adds-Unchanged name user agent step k now others _ refl
    run_call-Unchanged (updates k status result error now) spares =
        updates-Unchanged k status result error now spares
    run_call-Unchanged (completes k result now) spares = completes-Unchanged k result now _ refl

IsSameStep-trans : (s s' s'' : TaskStep) → IsSameStep s s' → IsSameStep s' s'' → IsSameStep s s''
IsSameStep-trans s s' s'' (a, b, c, d, e, f, g) (a', b', c', d', e', f', g') =
    (a' ∙ a, b' ∙ b, c' ∙ c, d' ∙ d, e' ∙ e, f' ∙ f, g' ∙ g)

-- Whatever is called, the streams stay, and the step under a key stays the same step.
pub run_calls-Kept :
    (key : String) (s : TaskStep) (t : Tables) (cs : List StepCall)
    → find_task_step_by_key key t.steps ≡ some s
    → Kept key s t (run_calls cs t)
run_calls-Kept key s t [] found = unchanged-Kept key s t t (refl, found)
run_calls-Kept key s t (c ∷ cs) found =
    let (streams, (s', found', same)) = run_call-Kept key s t found c in
    let (streams', (s'', found'', same')) = run_calls-Kept key s' (run_call c t) cs found' in
    (streams' ∙ streams, (s'', found'', IsSameStep-trans s s' s'' same same'))

-- A completed step stays as it is, if no call updates it.
pub run_calls-Unchanged :
    (key : String) (s : TaskStep) (t : Tables) (cs : List StepCall)
    → find_task_step_by_key key t.steps ≡ some s
    → is_completed s.status ≡ true
    → All (Spares key) cs
    → find_task_step_by_key key (run_calls cs t).steps ≡ some s
run_calls-Unchanged key s t [] found finished spares = found
run_calls-Unchanged key s t (c ∷ cs) found finished (spares, rest) =
    run_calls-Unchanged key s (run_call c t) cs
      (run_call-Unchanged key s t found finished c spares).1 finished rest
