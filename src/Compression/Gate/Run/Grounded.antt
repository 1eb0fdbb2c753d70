-- ===== src/Compression/Gate/Run/Grounded.antt =====
-- Every claim that the gate publishes is backed by the sources.
use surreal_memory_server.Common.{
  ℕ, zero, suc, String, Bool, true, false, Option, none, some, List, [], ◌∷◌, All, length, map,
  get_elem?, is_empty, ltb, ◌||◌, Result, ok, err, ◌≡◌, refl, sym, subst, ap, ◌∙◌, Bool-cases, inl,
  inr,
}
use mathlib.Core.Option
use surreal_memory_server.Compression.Lineage.{independent_roots}
use surreal_memory_server.Compression.Text.{estimate_tokens}
use surreal_memory_server.Compression.Contract.{
  Platform, SourceMemory, Candidate, SummaryMethod, SourceOrigin, Qualifiers,
}
use surreal_memory_server.Compression.Wording.{qualifiers_of}
use surreal_memory_server.Compression.Status.{ClaimStatus}
use surreal_memory_server.Compression.Promotion.Rule.{MayGuide, decide-promoted}
use surreal_memory_server.Compression.Gate.Validate.{Rejected}
use surreal_memory_server.Compression.Gate.Validate.Accepted.{IsQuoted, IsAccepted, Among}
use surreal_memory_server.Compression.Gate.Merge.{ValidatedClaim, accept, judge, evidence_sources}
use surreal_memory_server.Compression.Gate.Merge.Accepted.{accept-All}
use surreal_memory_server.Compression.Gate.Budget.{
  DeferReason, input_too_large, insufficient_reduction, render,
}
use surreal_memory_server.Compression.Gate.Budget.Kept.{shrink-All}
use surreal_memory_server.Compression.Gate.Run.{
  GatedSummary, Limits, run, finish, shrink_accepted, total_tokens, allowed_tokens,
}

module _ (p : Platform) (sources : List SourceMemory) where
  -- A claim that was accepted, with the decision that was made on it.
  abbrev pub IsGrounded : ValidatedClaim → Type 0
  IsGrounded v = IsAccepted p sources v.claim × (v ≡ judge p sources v.claim)

  judged-All :
      (cs : List Candidate)
      → All (IsAccepted p sources) cs
      → All IsGrounded (map (λ c. judge p sources c) cs)
  unfolding judge
  judged-All [] all = tt
  judged-All (c ∷ cs) (h, all) = ((h, refl), judged-All cs all)

  finish_claims :
      (limits : Limits p) (method : SummaryMethod)
      (r : Result (List ValidatedClaim × List Rejected) DeferReason) (g : GatedSummary)
      → finish p sources limits method r ≡ ok g
      → (out : List Rejected) × (r ≡ ok (g.claims, out))
  unfolding finish
  finish_claims limits method (err reason) g h = absurd (cc (h))
  finish_claims limits method (ok ([], out)) g h = absurd (cc (h))
  finish_claims limits method (ok (v ∷ vs, out)) g h =
      let text : String = render (v ∷ vs) method (length sources) in
      elim (Bool-cases
        (ltb (allowed_tokens p limits (total_tokens sources)) (estimate_tokens text))) [
          | inl much ↦
              let clash : ◌≡◌ {A = Result GatedSummary DeferReason}
                  (err (insufficient_reduction (total_tokens sources) (estimate_tokens text)))
                  (ok g) =
                rw much at h in
              absurd (cc (clash))
          | inr enough ↦
              let answer : ◌≡◌ {A = Result GatedSummary DeferReason}
                  (ok (record {
                    claims = v ∷ vs;
                    rejections = out;
                    rendered = text;
                    tokens_before = total_tokens sources;
                    tokens_after = estimate_tokens text;
                  }))
                  (ok g) =
                rw enough at h in
              let same : v ∷ vs ≡ g.claims = cc (answer) in (out, ap (λ cs. ok (cs, out)) same)
        ]

  finish-All :
      (limits : Limits p) (method : SummaryMethod) (cs : List Candidate) (out : List Rejected)
      (r : Option (Result (List ValidatedClaim × List Rejected) DeferReason)) (g : GatedSummary)
      → shrink_accepted p sources limits method (cs, out) ≡ r
      → Option.map (λ r. finish p sources limits method r) r ≡ some (ok g)
      → All (IsAccepted p sources) cs
      → All IsGrounded g.claims
  unfolding shrink_accepted
  finish-All limits method cs out none g e h all =
      let clash : ◌≡◌ {A = Option (Result GatedSummary DeferReason)} none (some (ok g)) = h in
      absurd (cc (clash))
  finish-All limits method cs out (some r) g e h all =
      let answer : finish p sources limits method r ≡ ok g = cc (h) in
      let (out', same) = finish_claims limits method r g answer in
      shrink-All IsGrounded (suc (length cs)) limits.max_output_tokens method (length sources)
        (map (λ c. judge p sources c) cs) out g.claims out' (e ∙ ap some same) (judged-All cs all)

  run-All :
      (candidates : List Candidate) (limits : Limits p) (method : SummaryMethod) (g : GatedSummary)
      → run p sources candidates limits method ≡ some (ok g)
      → All IsGrounded g.claims
  unfolding run
  run-All candidates limits method g h =
      elim (Bool-cases (ltb limits.max_input_tokens (total_tokens sources))) [
        | inl large ↦
            let clash : ◌≡◌ {A = Option (Result GatedSummary DeferReason)}
                (some (err (input_too_large (total_tokens sources) limits.max_input_tokens)))
                (some (ok g)) =
              rw large at h in
            absurd (cc (clash))
        | inr small ↦
            let found = accept p sources limits.max_candidates 0 candidates ([], []) in
            finish-All limits method found.0 found.1 _ g refl (rw small at h)
              (accept-All p sources limits.max_candidates 0 candidates ([], []) tt)
      ]

abbrev pub Unhedged : Qualifiers → Type 0
Unhedged q =
    (q.uncertain ≡ false)
    × (q.failed_approach ≡ false)
    × (q.quoted_instruction ≡ false)
    × (q.one_off ≡ false)

none_absorbed : (a b : Bool) → (a || b) ≡ b → b ≡ false → a ≡ false
none_absorbed true b h k = h ∙ k
none_absorbed false b h k = refl

unhedged :
    (w q : Qualifiers)
    → Among w q
    → q.quoted_instruction ≡ false
    → q.uncertain ≡ false
    → q.failed_approach ≡ false
    → q.one_off ≡ false
    → Unhedged w
unhedged w q (n, u, f, i, o) qi qu qf qo = (
  none_absorbed w.uncertain q.uncertain u qu,
  none_absorbed w.failed_approach q.failed_approach f qf,
  none_absorbed w.quoted_instruction q.quoted_instruction i qi,
  none_absorbed w.one_off q.one_off o qo,
)

get_elem?-All {ℓ κ} :
    {A : Type ℓ} (P : A → Type κ) (xs : List A) (i : ℕ) (x : A)
    → get_elem? i xs ≡ some x
    → All P xs
    → P x
get_elem?-All P [] i x h all = absurd (cc (h))
get_elem?-All P (y ∷ ys) zero x h all = subst P (cc (h)) all.0
get_elem?-All P (y ∷ ys) (suc i) x h all = get_elem?-All P ys i x h all.1

module _ (p : Platform) (sources : List SourceMemory) (candidates : List Candidate)
    (limits : Limits p) (method : SummaryMethod) (g : GatedSummary) (i : ℕ)
    (v : ValidatedClaim) where
  published-IsGrounded :
      run p sources candidates limits method ≡ some (ok g)
      → get_elem? i g.claims ≡ some v
      → IsGrounded p sources v
  published-IsGrounded h at =
      get_elem?-All (IsGrounded p sources) g.claims i v at
        (run-All p sources candidates limits method g h)

  -- Every claim of a published summary has evidence, and each quote is one of at least eight
  -- characters that stands, both in their normal form, in the source that it names, which has the
  -- version that it names.
  pub run_grounded :
      run p sources candidates limits method ≡ some (ok g)
      → get_elem? i g.claims ≡ some v
      → All (IsQuoted p sources) v.claim.evidence × (is_empty v.claim.evidence ≡ false)
  run_grounded h at =
      let ((quoted, nonempty, among), same) = published-IsGrounded h at in (quoted, nonempty)

  -- A claim of a published summary that is promoted is guidance whose own text does not hedge, report
  -- a failure, quote an instruction or state a single occasion; a person or an agent is among the
  -- origins of its evidence, and it is validated or has two independent roots, which are those of the
  -- sources that its evidence names.
  pub run_promoted :
      run p sources candidates limits method ≡ some (ok g)
      → get_elem? i g.claims ≡ some v
      → v.promotion.status ≡ ClaimStatus.promoted
      → Unhedged (qualifiers_of p v.claim.text)
        × MayGuide v.claim
            (length v.roots)
            (map (λ s. s.origin) (evidence_sources sources v.claim.evidence))
        × (v.roots ≡ independent_roots p (evidence_sources sources v.claim.evidence))
  unfolding judge
  run_promoted h at promoted =
      let ((quoted, nonempty, among), same) = published-IsGrounded h at in
      let roots : v.roots ≡ independent_roots p (evidence_sources sources v.claim.evidence) =
        ap (λ w. w.roots) same in
      let behind : List SourceMemory = evidence_sources sources v.claim.evidence in
      let origins : List SourceOrigin = map (λ s. s.origin) behind in
      let may =
        (decide-promoted v.claim (length (independent_roots p behind)) origins).0
          (sym (ap (λ w. w.promotion.status) same) ∙ promoted) in
      (
        unhedged (qualifiers_of p v.claim.text) v.claim.qualifiers among may.1 may.2 may.3 may.4,
        subst (λ rs. MayGuide v.claim (length rs) origins) (sym roots) may,
        roots,
      )
