-- ===== src/Compression/Promotion/Rule.antt =====
-- When `decide` of crates/surreal-memory/src/compression/promotion.rs promotes a claim.
use surreal_memory_server.Common.{
  ℕ, Bool, true, false, List, any, ◌≡◌, ◌≤◌, ◌⊎◌, inl, inr, ◌↔◌, arith, refl,
}
use surreal_memory_server.Compression.Contract.{Candidate, SourceOrigin, is_guidance}
use surreal_memory_server.Compression.Status.{ClaimStatus}
use surreal_memory_server.Compression.Promotion.{
  decide, is_person_or_agent, strength_of, by_strength,
}

-- What the rules ask of a claim with so many roots and such origins.
abbrev pub MayGuide : Candidate → ℕ → List SourceOrigin → Type 0
MayGuide c roots origins =
    (is_guidance c.kind ≡ true)
    × (c.qualifiers.quoted_instruction ≡ false)
    × (c.qualifiers.uncertain ≡ false)
    × (c.qualifiers.failed_approach ≡ false)
    × (c.qualifiers.one_off ≡ false)
    × (any (λ o. is_person_or_agent o) origins ≡ true)
    × ((c.validated ≡ true) ⊎ (2 ≤ roots))

by_strength_iff :
    (v : Bool) (roots : ℕ)
    → ((by_strength (strength_of v roots)).status ≡ ClaimStatus.promoted)
      ↔ ((v ≡ true) ⊎ (2 ≤ roots))
unfolding by_strength strength_of
by_strength_iff true roots = (λ h. inl refl, λ h. refl)
by_strength_iff false roots = (λ h. inr (ground arith), λ h. ground arith)

-- A claim is promoted exactly if it is guidance, its wording neither quotes an instruction nor
-- hedges nor reports a failure nor a single occasion, a person or an agent is among its origins, and
-- its evidence was validated or has two independent roots.
pub decide-promoted :
    (c : Candidate) (roots : ℕ) (origins : List SourceOrigin)
    → ((decide c roots origins).status ≡ ClaimStatus.promoted) ↔ MayGuide c roots origins
unfolding decide
decide-promoted c roots origins = (
  λ h. ground (arith, (by_strength_iff c.validated roots).0),
  λ h. ground (arith, (by_strength_iff c.validated roots).1),
)
