-- ===== src/Compression/Gate/Validate/Accepted.antt =====
-- What a claim has that `validate` of crates/surreal-memory/src/compression/gate.rs lets pass.
use surreal_memory_server.Common.{
  String, Bool, true, false, ◌||◌, ◌&&◌, Option, none, some, List, [], ◌∷◌, All, is_empty, ltb,
  leb→le, eqb, eqb_iff, Result, ok, err, ◌≡◌, refl, sym, subst, ◌≤◌, arith, Bool-cases, inl, inr,
}
use surreal_memory_server.Common.Text.{count}
use surreal_memory_server.Common.Words.{contains}
use surreal_memory_server.Compression.Contract.{
  Platform, EvidenceRef, SourceMemory, Candidate, Qualifiers,
}
use surreal_memory_server.Compression.Text.{normalize}
use surreal_memory_server.Compression.Wording.{qualifiers_of, has_validation_cue}
use surreal_memory_server.Compression.Gate.Validate.{
  RejectReason, by_id, differ, either, check_found, check_evidence, check_wording, unless_refused,
  validate, is_supported, no_evidence, unsupported, negation_changed, stale_source_version,
  quote_not_in_source,
}
use Prim.Native.String
use text.Mathlib.TextFind.{find_cases}

-- One text stands within another.
abbrev pub Stands : String → String → Type 0
Stands t s = (before : String) × (after : String) × (s ≡ String.◌++◌ before (String.◌++◌ t after))

pub contains-Stands : (s t : String) → contains s t ≡ true → Stands t s
unfolding contains
contains-Stands s t h = elim (find_cases s t) [
  | inl (u, v, e, at) ↦ (u, v, e)
  | inr miss ↦ absurd (omega (arith, leb→le _ _ h))
]

-- The first qualifiers are among the second.
abbrev pub Among : Qualifiers → Qualifiers → Type 0
Among w q =
    ((w.negated || q.negated) ≡ q.negated)
    × ((w.uncertain || q.uncertain) ≡ q.uncertain)
    × ((w.failed_approach || q.failed_approach) ≡ q.failed_approach)
    × ((w.quoted_instruction || q.quoted_instruction) ≡ q.quoted_instruction)
    × ((w.one_off || q.one_off) ≡ q.one_off)

absorbed : (a b c : Bool) → (b || (a || (b || c))) ≡ (a || (b || c))
absorbed a true c = ground arith
absorbed a false c = refl

either-Among : (q w u : Qualifiers) → Among w (either q w u)
either-Among q w u = (
  absorbed q.negated w.negated u.negated,
  absorbed q.uncertain w.uncertain u.uncertain,
  absorbed q.failed_approach w.failed_approach u.failed_approach,
  absorbed q.quoted_instruction w.quoted_instruction u.quoted_instruction,
  absorbed q.one_off w.one_off u.one_off,
)

-- A refusal is no acceptance.
not_ok {ℓ} :
    {B : Type ℓ} (reason : RejectReason) (v : Candidate)
    → ◌≡◌ {A = Result Candidate RejectReason} (err reason) (ok v)
    → B
not_ok reason v h = absurd (cc (h))

module _ (p : Platform) (sources : List SourceMemory) where
  -- The quote is long enough, and stands in the source it names, at the version it names.
  abbrev pub IsQuoted : EvidenceRef → Type 0
  IsQuoted e =
      (s : SourceMemory) × (by_id sources e.source_id ≡ some s)
      × (s.version ≡ e.source_version)
      × (8 ≤ count (normalize p e.quote))
      × Stands (normalize p e.quote) (normalize p s.content)

  abbrev pub IsAccepted : Candidate → Type 0
  IsAccepted c =
      All IsQuoted c.evidence
      × (is_empty c.evidence ≡ false)
      × Among (qualifiers_of p c.text) c.qualifiers

  check_found-IsQuoted :
      (e : EvidenceRef) (found : Option SourceMemory)
      → by_id sources e.source_id ≡ found
      → check_found p e found ≡ none
      → IsQuoted e
  unfolding check_found
  check_found-IsQuoted e none at h = cc (h)
  check_found-IsQuoted e (some s) at h = elim (Bool-cases (eqb s.version e.source_version)) [
    | inr stale ↦ let clash : some stale_source_version ≡ none = rw stale at h in cc (clash)
    | inl version ↦ elim (Bool-cases (ltb (count (normalize p e.quote)) 8)) [
      | inl short ↦
          let clash : some quote_not_in_source ≡ none = rw (version, short) at h in cc (clash)
      | inr long ↦ elim (Bool-cases (contains (normalize p s.content) (normalize p e.quote))) [
        | inr absent ↦
            let clash : some quote_not_in_source ≡ none = rw (version, long, absent) at h in
            cc (clash)
        | inl stands ↦ (s, at, (eqb_iff _ _).0 version, ground arith, contains-Stands _ _ stands)
      ]
    ]
  ]

  check_evidence-cons :
      (e : EvidenceRef) (es : List EvidenceRef) (r : Option RejectReason)
      → check_found p e (by_id sources e.source_id) ≡ r
      → check_evidence p sources (e ∷ es) ≡ none
      → IsQuoted e × (check_evidence p sources es ≡ none)
  unfolding check_evidence
  check_evidence-cons e es (some reason) c h =
      let clash : some reason ≡ none = rw (c, check_evidence) at h in cc (clash)
  check_evidence-cons e es none c h = (check_found-IsQuoted e _ refl c, rw (c, check_evidence) at h)

  check_evidence-All :
      (es : List EvidenceRef) → check_evidence p sources es ≡ none → All IsQuoted es
  check_evidence-All [] h = tt
  check_evidence-All (e ∷ es) h =
      let (quoted, rest) = check_evidence-cons e es _ refl h in (quoted, check_evidence-All es rest)

  -- What the check of the wording leaves as it was, and what it makes of the qualifiers.
  abbrev IsWorded : Candidate → Candidate → Type 0
  IsWorded c v = (v.evidence ≡ c.evidence) × Among (qualifiers_of p v.text) v.qualifiers

  check_wording-IsWorded :
      (c v : Candidate) (quotes : String) → check_wording p c quotes ≡ ok v → IsWorded c v
  unfolding check_wording
  check_wording-IsWorded c v quotes h = elim (Bool-cases (is_supported p c.text quotes)) [
    | inr no_support ↦ not_ok unsupported v (rw no_support at h)
    | inl support ↦
        elim (Bool-cases
          (differ (qualifiers_of p c.text).negated (qualifiers_of p quotes).negated)) [
            | inl changed ↦ not_ok negation_changed v (rw (support, changed) at h)
            | inr kept ↦
                let worded : Candidate = record c {
                  qualifiers =
                      either c.qualifiers (qualifiers_of p c.text) (qualifiers_of p quotes);
                  validated = c.validated && has_validation_cue p quotes;
                } in
                let answer : ◌≡◌ {A = Result Candidate RejectReason} (ok worded) (ok v) =
                  rw (support, kept) at h in
                let same : worded ≡ v = cc (answer) in
                subst (IsWorded c) same (
                  refl,
                  either-Among c.qualifiers (qualifiers_of p c.text) (qualifiers_of p quotes),
                )
          ]
  ]

  by_evidence :
      (c v : Candidate) (r : Option RejectReason)
      → check_evidence p sources c.evidence ≡ r
      → is_empty c.evidence ≡ false
      → unless_refused p c r ≡ ok v
      → IsAccepted v
  unfolding unless_refused
  by_evidence c v (some reason) e some_evidence h = not_ok reason v h
  by_evidence c v none e some_evidence h =
      let (same, among) = check_wording-IsWorded c v _ h in
      (
        subst (λ es. All IsQuoted es) (sym same) (check_evidence-All c.evidence e),
        rw same some_evidence,
        among,
      )

  -- A claim that passes has evidence, all of it quoted, and its wording is among its qualifiers.
  pub validate-IsAccepted : (c v : Candidate) → validate p sources c ≡ ok v → IsAccepted v
  unfolding validate
  validate-IsAccepted c v h = elim (Bool-cases (is_empty c.evidence)) [
    | inl empty ↦ not_ok no_evidence v (rw empty at h)
    | inr some_evidence ↦ by_evidence c v _ refl some_evidence (rw some_evidence at h)
  ]
