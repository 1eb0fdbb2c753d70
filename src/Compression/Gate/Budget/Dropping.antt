-- ===== src/Compression/Gate/Budget/Dropping.antt =====
-- The loop that drops claims from a summary: it ends, and it never drops a protected claim.
use surreal_memory_server.Common.{
  ℕ, zero, suc, true, false, Option, none, some, List, [], ◌∷◌, length, keep, ltb, ltb→lt, Result,
  ok, err, ◌≡◌, refl, sym, ap, ◌∙◌, ◌≤◌, ◌<◌, arith, Bool-cases, inl, inr,
}
use surreal_memory_server.Compression.Contract.{drop_priority, SummaryMethod}
use surreal_memory_server.Compression.Text.{estimate_tokens}
use surreal_memory_server.Compression.Gate.Validate.{Rejected}
use surreal_memory_server.Compression.Gate.Merge.{ValidatedClaim}
use surreal_memory_server.Compression.Gate.Budget.{
  protected, lowest_droppable, lowest_priority_droppable, remove, dropped, render, shrink,
  DeferReason, over_budget,
}

abbrev priority : ValidatedClaim → ℕ
priority v = drop_priority v.claim.kind

-- What is known of the claim at a place: it may be dropped, and no claim that may be dropped has a
-- lower priority.
abbrev IsLowest : List ValidatedClaim → ℕ × ℕ → Type 0
IsLowest vs (k, i) =
    (v : ValidatedClaim) × (rest : List ValidatedClaim) × (remove i vs ≡ some (v, rest))
    × (protected v ≡ false)
    × (priority v ≡ k)
    × (keep protected rest ≡ keep protected vs)
    × (suc (length rest) ≡ length vs)

abbrev Lowest : List ValidatedClaim → Option (ℕ × ℕ) → Type 0
Lowest vs none = keep protected vs ≡ vs
Lowest vs (some ki) = IsLowest vs ki

keep_held :
    (v : ValidatedClaim) (vs : List ValidatedClaim)
    → protected v ≡ true
    → keep protected (v ∷ vs) ≡ v ∷ keep protected vs
keep_held v vs p = ground arith

keep_free :
    (v : ValidatedClaim) (vs : List ValidatedClaim)
    → protected v ≡ false
    → keep protected (v ∷ vs) ≡ keep protected vs
keep_free v vs p = ground arith

keep_cong :
    (v : ValidatedClaim) (us vs : List ValidatedClaim)
    → keep protected us ≡ keep protected vs
    → keep protected (v ∷ us) ≡ keep protected (v ∷ vs)
keep_cong v us vs h = ground arith

Lowest-cons :
    (v : ValidatedClaim) (vs : List ValidatedClaim) (best : Option (ℕ × ℕ))
    → lowest_droppable vs ≡ best
    → Lowest vs best
    → Lowest (v ∷ vs) (lowest_droppable (v ∷ vs))
unfolding lowest_droppable remove
Lowest-cons v vs none e l = elim (Bool-cases (protected v)) [
  | inl p ↦ rw (e, p) (keep_held v vs p ∙ ap (λ r. v ∷ r) l)
  | inr p ↦ rw (e, p) (v, vs, refl, p, refl, sym (keep_free v vs p), refl)
]
Lowest-cons v vs (some (k, i)) e (w, rest, at, free, prio, kept, size) =
    elim (Bool-cases (protected v)) [
      | inl p ↦
          rw (e, p) (w, v ∷ rest, rw at refl, free, prio, keep_cong v rest vs kept, ap suc size)
      | inr p ↦ elim (Bool-cases (ltb (priority v) k)) [
        | inl less ↦ rw (e, p, less) (v, vs, refl, p, refl, sym (keep_free v vs p), refl)
        | inr more ↦
            rw (e, p, more)
              (w, v ∷ rest, rw at refl, free, prio, keep_cong v rest vs kept, ap suc size)
      ]
    ]

lowest_droppable_lem : (vs : List ValidatedClaim) → Lowest vs (lowest_droppable vs)
unfolding lowest_droppable
lowest_droppable_lem [] = refl
lowest_droppable_lem (v ∷ vs) = Lowest-cons v vs _ refl (lowest_droppable_lem vs)

-- How the loop may end: with the claims that are kept, which fit, or for want of a claim to drop.
abbrev pub Shrunk :
    ℕ
    → SummaryMethod
    → ℕ
    → List ValidatedClaim
    → Result (List ValidatedClaim × List Rejected) DeferReason
    → Type 0
Shrunk max method n claims (ok (left, out)) =
    (keep protected left ≡ keep protected claims)
    × (length left ≤ length claims)
    × (estimate_tokens (render left method n) ≤ max)
Shrunk max method n claims (err reason) =
    (t : ℕ) × (reason ≡ over_budget t max)
    × (t ≡ estimate_tokens (render (keep protected claims) method n))
    × (max < t)

module _ (fuel max : ℕ) (method : SummaryMethod) (n : ℕ) where
  abbrev Ends : ℕ → List ValidatedClaim → List Rejected → Type 0
  Ends rounds claims out =
      (r : Result (List ValidatedClaim × List Rejected) DeferReason) × (shrink rounds max method n
          claims out
        ≡ some r)
      × Shrunk max method n claims r

  Shrunk-rest :
      (v : ValidatedClaim) (rest claims : List ValidatedClaim)
      (r : Result (List ValidatedClaim × List Rejected) DeferReason)
      → keep protected rest ≡ keep protected claims
      → suc (length rest) ≡ length claims
      → Shrunk max method n rest r
      → Shrunk max method n claims r
  Shrunk-rest v rest claims (ok (left, out)) kept size (same, short, fits) =
      (same ∙ kept, omega arith, fits)
  Shrunk-rest v rest claims (err reason) kept size (t, e, is, over) =
      (t, e, is ∙ ap (λ ks. estimate_tokens (render ks method n)) kept, over)

  over_step :
      (claims : List ValidatedClaim) (out : List Rejected) (best : Option (ℕ × ℕ))
      → length claims < suc fuel
      → lowest_droppable claims ≡ best
      → Lowest claims best
      → ltb max (estimate_tokens (render claims method n)) ≡ true
      → ((rest : List ValidatedClaim) (out' : List Rejected)
          → length rest < fuel
          → Ends fuel rest out')
      → Ends (suc fuel) claims out
  unfolding shrink lowest_priority_droppable
  over_step claims out none f e l over ih =
      let t : ℕ = estimate_tokens (render claims method n) in
      (
        err (over_budget t max),
        rw (over, e) refl,
        (t, refl, ap (λ ks. estimate_tokens (render ks method n)) (sym l), ltb→lt _ _ over),
      )
  over_step claims out (some (k, i)) f e (v, rest, at, free, prio, kept, size) over ih =
      let (r, runs, s) = ih rest (dropped v out) (omega arith) in
      (r, rw (over, e, at) runs, Shrunk-rest v rest claims r kept size s)

-- The loop ends within one round more than there are claims. If it keeps some claims, the protected
-- ones among them are those it was given, all of them and in their order, and the summary is within
-- the budget; if it gives up, the summary of the protected claims alone is over the budget.
pub shrink-Shrunk :
    (fuel max : ℕ) (method : SummaryMethod) (n : ℕ) (claims : List ValidatedClaim)
    (out : List Rejected)
    → length claims < fuel
    → (r : Result (List ValidatedClaim × List Rejected) DeferReason) × (shrink fuel max method n
          claims out
        ≡ some r)
      × Shrunk max method n claims r
unfolding shrink
shrink-Shrunk zero max method n claims out f = elim f [ ]
shrink-Shrunk (suc fuel) max method n claims out f =
    elim (Bool-cases (ltb max (estimate_tokens (render claims method n)))) [
      | inl over ↦
          over_step fuel max method n claims out _ f refl (lowest_droppable_lem claims) over
            (λ rest out' h. shrink-Shrunk fuel max method n rest out' h)
      | inr fits ↦ (ok (claims, out), rw fits refl, (refl, omega arith, ground arith))
    ]
