-- ===== src/Compression/Gate/Run/Bounds.antt =====
-- The gate always answers, and what it publishes is within its limits.
use surreal_memory_server.Common.{
  suc, false, some, List, [], ◌∷◌, length, map, keep, ltb, Result, ok, err, ◌≡◌, refl, sym, ap,
  subst, ◌∙◌, String, ◌≤◌, arith, Bool-cases, inl, inr,
}
use surreal_memory_server.Compression.Contract.{Platform, SourceMemory, Candidate, SummaryMethod}
use surreal_memory_server.Compression.Text.{estimate_tokens}
use surreal_memory_server.Compression.Gate.Validate.{Rejected}
use surreal_memory_server.Compression.Gate.Merge.{ValidatedClaim, accept, judge}
use surreal_memory_server.Compression.Gate.Budget.{
  render, DeferReason, input_too_large, insufficient_reduction, protected,
}
use surreal_memory_server.Compression.Gate.Budget.Dropping.{Shrunk, shrink-Shrunk}
use surreal_memory_server.Compression.Gate.Run.{
  GatedSummary, Limits, run, finish, shrink_accepted, total_tokens, allowed_tokens,
}

length-map {ℓ κ} :
    {A : Type ℓ} {B : Type κ} (f : A → B) (xs : List A) → length (map f xs) ≡ length xs
length-map f [] = refl
length-map f (x ∷ xs) = ap suc (length-map f xs)

module _ (p : Platform) (sources : List SourceMemory) (candidates : List Candidate)
    (limits : Limits p) (method : SummaryMethod) where
  -- The claims that the gate judges.
  abbrev pub judged : List ValidatedClaim
  judged =
      map (λ c. judge p sources c) (accept p sources limits.max_candidates 0 candidates ([], [])).0

  abbrev FromLoop : Result (List ValidatedClaim × List Rejected) DeferReason → Type 0
  FromLoop r =
      (run p sources candidates limits method ≡ some (finish p sources limits method r))
      × Shrunk limits.max_output_tokens method (length sources) judged r

  pub run_within :
      ltb limits.max_input_tokens (total_tokens sources) ≡ false
      → (r : Result (List ValidatedClaim × List Rejected) DeferReason) × FromLoop r
  unfolding run shrink_accepted
  run_within small =
      let found = accept p sources limits.max_candidates 0 candidates ([], []) in
      let (r, runs, s) =
        shrink-Shrunk (suc (length found.0)) limits.max_output_tokens method (length sources) judged
          found.1 (omega (arith, length-map (λ c. judge p sources c) found.0)) in
      (r, (rw (small, runs) refl, s))

  -- Every run of the gate returns: a summary, or the reason why there is none.
  pub run_total :
      (r : Result GatedSummary DeferReason) × (run p sources candidates limits method ≡ some r)
  unfolding run
  run_total = elim (Bool-cases (ltb limits.max_input_tokens (total_tokens sources))) [
    | inl large ↦ (err (input_too_large (total_tokens sources) limits.max_input_tokens), rw large)
    | inr small ↦ (finish p sources limits method (run_within small).0, (run_within small).1.0)
  ]

  abbrev pub IsWithin : GatedSummary → Type 0
  IsWithin g =
      (total_tokens sources ≤ limits.max_input_tokens)
      × (g.rendered ≡ render g.claims method (length sources))
      × (g.tokens_after ≡ estimate_tokens g.rendered)
      × (g.tokens_after ≤ limits.max_output_tokens)
      × (g.tokens_after ≤ allowed_tokens p limits (total_tokens sources))
      × (keep protected g.claims ≡ keep protected judged)

  finish-IsWithin :
      (r : Result (List ValidatedClaim × List Rejected) DeferReason) (g : GatedSummary)
      → total_tokens sources ≤ limits.max_input_tokens
      → Shrunk limits.max_output_tokens method (length sources) judged r
      → finish p sources limits method r ≡ ok g
      → IsWithin g
  unfolding finish
  finish-IsWithin (err reason) g small s h = cc (h)
  finish-IsWithin (ok ([], out)) g small s h = cc (h)
  finish-IsWithin (ok (v ∷ vs, out)) g small (same, short, fits) h =
      let left : List ValidatedClaim = v ∷ vs in
      let text : String = render left method (length sources) in
      elim (Bool-cases
        (ltb (allowed_tokens p limits (total_tokens sources)) (estimate_tokens text))) [
          | inl much ↦
              let clash : ◌≡◌ {A = Result GatedSummary DeferReason}
                  (err (insufficient_reduction (total_tokens sources) (estimate_tokens text)))
                  (ok g) =
                rw much at h in
              cc (clash)
          | inr enough ↦
              let summary : GatedSummary = record {
                claims = left;
                rejections = out;
                rendered = text;
                tokens_before = total_tokens sources;
                tokens_after = estimate_tokens text;
              } in
              let answer : ◌≡◌ {A = Result GatedSummary DeferReason} (ok summary) (ok g) =
                rw enough at h in
              let same_summary : summary ≡ g = cc (answer) in
              subst IsWithin same_summary (small, refl, refl, fits, ground arith, same)
        ]

  -- A summary that the gate publishes is the rendering of its claims, within the limit on the output
  -- and enough smaller than the input, which is within its own limit; and it has all the protected
  -- claims that were accepted.
  pub run_bounds :
      (g : GatedSummary) → run p sources candidates limits method ≡ some (ok g) → IsWithin g
  unfolding run
  run_bounds g h = elim (Bool-cases (ltb limits.max_input_tokens (total_tokens sources))) [
    | inl large ↦
        let clash : some (err (input_too_large (total_tokens sources) limits.max_input_tokens))
            ≡ some (ok g) =
          rw large at h in
        cc (clash)
    | inr small ↦
        let (r, (runs, s)) = run_within small in
        finish-IsWithin r g (ground arith) s (cc (sym runs ∙ h))
  ]
