-- ===== src/Compression/Gate/Budget/Kept.antt =====
-- What holds of all claims holds of those that the loop keeps.
use mathlib.Core.Option
use surreal_memory_server.Common.{
  ℕ, zero, suc, true, Option, none, some, List, [], ◌∷◌, All, ltb, Result, ok, err, ◌≡◌, refl,
  Bool-cases, subst, inl, inr,
}
use surreal_memory_server.Compression.Contract.{SummaryMethod}
use surreal_memory_server.Compression.Text.{estimate_tokens}
use surreal_memory_server.Compression.Gate.Validate.{Rejected}
use surreal_memory_server.Compression.Gate.Merge.{ValidatedClaim}
use surreal_memory_server.Compression.Gate.Budget.{
  remove, dropped, render, shrink, lowest_priority_droppable, DeferReason, over_budget,
}

abbrev removed_at : Option ℕ → List ValidatedClaim → Option (ValidatedClaim × List ValidatedClaim)
removed_at none vs = none
removed_at (some i) vs = remove i vs

module _ {κ} (P : ValidatedClaim → Type κ) where
  AllRest : Option (ValidatedClaim × List ValidatedClaim) → Type κ
  AllRest none = Unit
  AllRest (some (v, rest)) = All P rest

  AllRest-cons :
      (w : ValidatedClaim) (r : Option (ValidatedClaim × List ValidatedClaim))
      → P w
      → AllRest r
      → AllRest (Option.map (λ wr. (wr.0, w ∷ wr.1)) r)
  unfolding AllRest
  AllRest-cons w none h a = tt
  AllRest-cons w (some (v, rest)) h a = (h, a)

  remove-All : (i : ℕ) (vs : List ValidatedClaim) → All P vs → AllRest (remove i vs)
  unfolding remove AllRest
  remove-All i [] all = tt
  remove-All zero (v ∷ vs) all = all.1
  remove-All (suc i) (v ∷ vs) all = AllRest-cons v (remove i vs) all.0 (remove-All i vs all.1)

  after_remove :
      (i : ℕ) (vs rest : List ValidatedClaim) (v : ValidatedClaim)
      → remove i vs ≡ some (v, rest)
      → All P vs
      → All P rest
  unfolding AllRest
  after_remove i vs rest v h all = subst AllRest h (remove-All i vs all)

  module _ (fuel max : ℕ) (method : SummaryMethod) (n : ℕ) (left : List ValidatedClaim)
      (out' : List Rejected) where
    abbrev Keeps : ℕ → List ValidatedClaim → List Rejected → Type 0
    Keeps rounds claims out = shrink rounds max method n claims out ≡ some (ok (left, out'))

    over_All :
        (claims : List ValidatedClaim) (out : List Rejected) (place : Option ℕ)
        → lowest_priority_droppable claims ≡ place
        → (removed : Option (ValidatedClaim × List ValidatedClaim))
        → removed_at place claims ≡ removed
        → ltb max (estimate_tokens (render claims method n)) ≡ true
        → Keeps (suc fuel) claims out
        → All P claims
        → ((rest : List ValidatedClaim) (o : List Rejected)
            → Keeps fuel rest o
            → All P rest
            → All P left)
        → All P left
    unfolding shrink
    over_All claims out none e removed r over h all ih =
        let clash : ◌≡◌ {A = Option (Result (List ValidatedClaim × List Rejected) DeferReason)}
            (some (err (over_budget (estimate_tokens (render claims method n)) max)))
            (some (ok (left, out'))) =
          rw (over, e) at h in
        absurd (cc (clash))
    over_All claims out (some i) e none r over h all ih =
        let clash : ◌≡◌ {A = Option (Result (List ValidatedClaim × List Rejected) DeferReason)} none
            (some (ok (left, out'))) =
          rw (over, e, r) at h in
        absurd (cc (clash))
    over_All claims out (some i) e (some (v, rest)) r over h all ih =
        ih rest (dropped v out) (rw (over, e, r) at h) (after_remove i claims rest v r all)

  -- What holds of all claims holds of those that the loop keeps.
  pub shrink-All :
      (fuel max : ℕ) (method : SummaryMethod) (n : ℕ) (claims : List ValidatedClaim)
      (out : List Rejected) (left : List ValidatedClaim) (out' : List Rejected)
      → shrink fuel max method n claims out ≡ some (ok (left, out'))
      → All P claims
      → All P left
  unfolding shrink
  shrink-All zero max method n claims out left out' h all = absurd (cc (h))
  shrink-All (suc fuel) max method n claims out left out' h all =
      elim (Bool-cases (ltb max (estimate_tokens (render claims method n)))) [
        | inr fits ↦
            let same : ◌≡◌ {A = Option (Result (List ValidatedClaim × List Rejected) DeferReason)}
                (some (ok (claims, out))) (some (ok (left, out'))) =
              rw fits at h in
            subst (λ vs. All P vs) (cc (same)) all
        | inl over ↦
            over_All fuel max method n left out' claims out _ refl _ refl over h all
              (λ rest o k a. shrink-All fuel max method n rest o left out' k a)
      ]
