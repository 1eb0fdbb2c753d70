-- ===== src/Tasks/Steps/Replay.antt =====
-- Creation and completion of a step are safe to repeat.
use surreal_memory_server.Common.{
  All, ℕ, String, true, Option, none, some, List, [], ◌∷◌, ◌++◌, Result, ok, err, ◌==◌, eq_refl,
  ◌≡◌, refl, sym, ap, subst, ◌∙◌, ◌⊎◌, inl, inr, Bool-cases, arith,
}
use surreal_memory_server.Tasks.Step.{TaskStep, completed}
use surreal_memory_server.Tasks.Steps.{
  Tables, StepError, stream_id, find_task_step_by_key, create_step, create_all, insert_step,
  unless_known, or_existing, linked_to, add_task_step, set_step, update_steps,
  update_task_step_status, complete_found, complete_step, is_completed,
}
use surreal_memory_server.Tasks.Steps.Calls.{StepCall, run_calls, Spares}
use surreal_memory_server.Tasks.Steps.Calls.Rows.{find-update}
use surreal_memory_server.Tasks.Steps.Calls.Kept.{
  IsSameStep, stream_id-cong, run_calls-Kept, run_calls-Unchanged,
}

find-append :
    (s : TaskStep) (rows : List TaskStep)
    → find_task_step_by_key s.idempotency_key rows ≡ none
    → find_task_step_by_key s.idempotency_key (rows ++ s ∷ []) ≡ some s
unfolding find_task_step_by_key
find-append s [] h = rw (eq_refl s.idempotency_key) refl
find-append s (r ∷ rest) h = elim (Bool-cases (r.idempotency_key == s.idempotency_key)) [
  | inl same ↦ let clash : some r ≡ none = rw same at h in absurd (cc (clash))
  | inr other ↦ rw other (find-append s rest (rw other at h))
]

find-create_step :
    (s : TaskStep) (rows rows' : List TaskStep)
    → create_step s rows ≡ some rows'
    → find_task_step_by_key s.idempotency_key rows' ≡ some s
unfolding create_step
find-create_step s rows rows' h = by_found (find_task_step_by_key s.idempotency_key rows) refl h
  where
    by_found :
        (r : Option TaskStep)
        → find_task_step_by_key s.idempotency_key rows ≡ r
        → create_step s rows ≡ some rows'
        → find_task_step_by_key s.idempotency_key rows' ≡ some s
    by_found (some t) e k =
        let clash : none ≡ some rows' = rw (e, create_step) at k in absurd (cc (clash))
    by_found none e k =
        let same : some (rows ++ s ∷ []) ≡ some rows' = rw (e, create_step) at k in
        subst (λ xs. find_task_step_by_key s.idempotency_key xs ≡ some s) (cc (same))
          (find-append s rows e)

-- What a successful call leaves: the same streams, and the step under its key.
abbrev Added : String → TaskStep → Tables → Tables → Type 0
Added key s t t' = (t'.streams ≡ t.streams) × (find_task_step_by_key key t'.steps ≡ some s)

or_existing-ok :
    (key : String) (r : Option TaskStep) (s : TaskStep) → or_existing key r ≡ ok s → r ≡ some s
unfolding or_existing
or_existing-ok key none s h = absurd (cc (h))
or_existing-ok key (some r) s h = cc (h)

insert_step-Added :
    (linked s : TaskStep) (r : Option (List TaskStep)) (rows : List TaskStep) (t t' : Tables)
    → create_step linked rows ≡ r
    → insert_step linked r rows t ≡ (ok s, t')
    → Added linked.idempotency_key s t t'
unfolding insert_step
insert_step-Added linked s (some rows') rows t t' e h =
    let found = find-create_step linked rows rows' e in ground arith
insert_step-Added linked s none rows t t' e h = (
  ap (λ x. x.1.streams) (sym h),
  subst (λ x. find_task_step_by_key linked.idempotency_key x.1.steps ≡ some s) h
      (or_existing-ok linked.idempotency_key _ s (ap (λ x. x.0) h)),
)

unless_known-Added :
    (linked s : TaskStep) (others : List TaskStep) (found : Option TaskStep) (t t' : Tables)
    → find_task_step_by_key linked.idempotency_key t.steps ≡ found
    → unless_known linked others found t ≡ (ok s, t')
    → Added linked.idempotency_key s t t'
unfolding unless_known
unless_known-Added linked s others (some existing) t t' e h = (
  ap (λ x. x.1.streams) (sym h),
  let same : existing ≡ s = cc (h) in
      subst (λ x. find_task_step_by_key linked.idempotency_key x.1.steps ≡ some s) h
        (e ∙ ap some same),
)
unless_known-Added linked s others none t t' e h =
    insert_step-Added linked s _ (create_all others t.steps) t t' refl h

module _ (name : String) (user agent : Option String) where
  add_task_step-Added :
      (step s : TaskStep) (key : String) (now : ℕ) (others : List TaskStep) (t t' : Tables)
      (r : Result String StepError)
      → stream_id name user agent t ≡ r
      → add_task_step name user agent step key now others t ≡ (ok s, t')
      → Added step.idempotency_key s t t' × ((sid : String) × (r ≡ ok sid))
  unfolding add_task_step
  add_task_step-Added step s key now others t t' (err e) at h =
      let clash : ◌≡◌ {A = Result TaskStep StepError × Tables} (err e, t) (ok s, t') =
        rw (at, add_task_step) at h in
      absurd (cc (clash))
  add_task_step-Added step s key now others t t' (ok sid) at h = (
    unless_known-Added (linked_to sid key now step) s others _ t t' refl
        (rw (at, add_task_step) at h),
    (sid, refl),
  )

  -- Once a step was added, or found, under a key, a later call with that key for the stream answers
  -- the step that is then stored under it and changes nothing, whatever else it asks for, whatever
  -- others do between its check and its insertion, and whatever additions, updates and completions of
  -- any steps came between the two. That step is the first one: it has its id, stream, ordinal, name,
  -- description, key and moment of creation.
  pub add_task_step-replay :
      (step s again : TaskStep) (key key' : String) (now now' : ℕ) (others others' : List TaskStep)
      (t t' : Tables) (between : List StepCall)
      → add_task_step name user agent step key now others t ≡ (ok s, t')
      → again.idempotency_key ≡ step.idempotency_key
      → (s' : TaskStep) × IsSameStep s s'
        × (find_task_step_by_key step.idempotency_key (run_calls between t').steps ≡ some s')
        × (add_task_step name user agent again key' now' others' (run_calls between t')
            ≡ (ok s', run_calls between t'))
  unfolding add_task_step
  add_task_step-replay step s again key key' now now' others others' t t' between h same_key =
      let ((streams, found), (sid, at)) = add_task_step-Added step s key now others t t' _ refl h in
      let (streams', (s', found', same)) = run_calls-Kept step.idempotency_key s t' between found in
      let u : Tables = run_calls between t' in
      let known : find_task_step_by_key again.idempotency_key u.steps ≡ some s' =
        subst (λ k. find_task_step_by_key k u.steps ≡ some s') (sym same_key) found' in
      (
        s',
        same,
        found',
        rw
            (
              stream_id-cong name user agent t u (streams' ∙ streams) ∙ at,
              add_task_step,
              known,
              unless_known,
            )
            refl,
      )

-- What a successful completion leaves under its key.
abbrev Completed : String → TaskStep → Tables → Type 0
Completed key s t = (find_task_step_by_key key t.steps ≡ some s) × (is_completed s.status ≡ true)

set_completed :
    (result : Option String) (now : ℕ) (s : TaskStep)
    → (is_completed (set_step completed result none now s).status ≡ true)
      × (((set_step completed result none now s).result ≡ result)
          × ((set_step completed result none now s).completed_at ≡ some now))
unfolding set_step
set_completed result now s = (refl, (refl, refl))

find-update_none :
    (key : String) (result : Option String) (now : ℕ) (rows : List TaskStep)
    → find_task_step_by_key key rows ≡ none
    → find_task_step_by_key key (update_steps key completed result none now rows) ≡ none
unfolding find_task_step_by_key update_steps
find-update_none key result now [] h = refl
find-update_none key result now (r ∷ rest) h = elim (Bool-cases (r.idempotency_key == key)) [
  | inl here ↦ let clash : some r ≡ none = rw here at h in cc (clash)
  | inr other ↦ rw (other, other) (find-update_none key result now rest (rw other at h))
]

update-Completed :
    (key : String) (result : Option String) (now : ℕ) (t t' : Tables) (s : TaskStep)
    (before : Option TaskStep)
    → find_task_step_by_key key t.steps ≡ before
    → update_task_step_status key completed result none now t ≡ (ok s, t')
    → Completed key s t' × ((s.result ≡ result) × (s.completed_at ≡ some now))
unfolding update_task_step_status
update-Completed key result now t t' s none e h =
    let found : find_task_step_by_key key (update_steps key completed result none now t.steps)
        ≡ some s =
      or_existing-ok key _ s (ap (λ x. x.0) h) in
    let clash : none ≡ some s = sym (find-update_none key result now t.steps e) ∙ found in
    cc (clash)
update-Completed key result now t t' s (some r) e h =
    let rows : List TaskStep = update_steps key completed result none now t.steps in
    let stored : TaskStep = set_step completed result none now r in
    let found : find_task_step_by_key key rows ≡ some stored =
      find-update key completed result none now t.steps r e in
    let same : stored ≡ s = cc (or_existing-ok key _ s (ap (λ x. x.0) h), found) in
    (
      (
        subst (λ x. find_task_step_by_key key x.1.steps ≡ some s) h (found ∙ ap some same),
        subst (λ x. is_completed x.status ≡ true) same (set_completed result now r).0,
      ),
      subst (λ x. (x.result ≡ result) × (x.completed_at ≡ some now)) same
          (set_completed result now r).1,
    )

complete_found-Completed :
    (key : String) (result : Option String) (now : ℕ) (others : Tables → Tables)
    (found : Option TaskStep) (t t' : Tables) (s : TaskStep)
    → find_task_step_by_key key t.steps ≡ found
    → complete_found key result now others found t ≡ (ok s, t')
    → Completed key s t' × ((found ≡ some s) ⊎ ((s.result ≡ result) × (s.completed_at ≡ some now)))
unfolding complete_found
complete_found-Completed key result now others none t t' s e h = absurd (cc (h))
complete_found-Completed key result now others (some r) t t' s e h =
    elim (Bool-cases (is_completed r.status)) [
      | inl done ↦
          let answer : ◌≡◌ {A = Result TaskStep StepError × Tables} (ok r, t) (ok s, t') =
            rw done at h in
          let same : r ≡ s = cc (answer) in
          let tables : t ≡ t' = cc (answer) in
          (
            (
              subst (λ u. find_task_step_by_key key u.steps ≡ some s) tables (e ∙ ap some same),
              subst (λ x. is_completed x.status ≡ true) same done,
            ),
            inl (ap some same),
          )
      | inr unfinished ↦
          let (stored, how) =
            update-Completed key result now (others t) t' s _ refl (rw unfinished at h) in
          (stored, inr how)
    ]

-- Once a step was completed, a later completion with its key answers the same step, with the first
-- result, and changes nothing, whatever came between the two but an update of that step: additions,
-- completions of any steps, that one too, and updates of other steps. The step that the first call
-- answers is completed, either before the call or by it, at its moment and with its result, whatever
-- others do between its read and its update.
pub complete_step-replay :
    (key : String) (result result' : Option String) (now now' : ℕ)
    (others others' : Tables → Tables) (t t' : Tables) (s : TaskStep) (between : List StepCall)
    → complete_step key result now others t ≡ (ok s, t')
    → All (Spares key) between
    → (complete_step key result' now' others' (run_calls between t') ≡ (ok s, run_calls between t'))
      × (is_completed s.status ≡ true)
      × ((find_task_step_by_key key t.steps ≡ some s)
          ⊎ ((s.result ≡ result) × (s.completed_at ≡ some now)))
unfolding complete_step
complete_step-replay key result result' now now' others others' t t' s between h spares =
    let ((found, done), how) = complete_found-Completed key result now others _ t t' s refl h in
    let kept = run_calls-Unchanged key s t' between found done spares in
    (rw (kept, complete_step, done, complete_found) refl, done, how)
