-- ===== src/Compression/Gate/Merge/Accepted.antt =====
-- The claims that the gate accepts stay quoted when equivalent claims are merged into them.
use surreal_memory_server.Common.{
  ℕ, Bool, true, false, ◌&&◌, List, [], ◌∷◌, ◌++◌, ◌+◌, All, any, is_empty, leb, ◌==◌, Result, ok,
  err, ◌≡◌, refl, Bool-cases, inl, inr, if◌then◌else◌,
}
use surreal_memory_server.Compression.Contract.{
  Platform, EvidenceRef, SourceMemory, Candidate, same_kind,
}
use surreal_memory_server.Compression.Text.{canonical}
use surreal_memory_server.Compression.Extract.{push_evidence}
use surreal_memory_server.Compression.Gate.Validate.{
  Rejected, RejectReason, too_many_candidates, validate,
}
use surreal_memory_server.Compression.Gate.Validate.Accepted.{
  IsQuoted, IsAccepted, validate-IsAccepted,
}
use surreal_memory_server.Compression.Gate.Merge.{
  merge_evidence, merge_equivalent, accept, accept_one, reject,
}

All-append {ℓ κ} :
    {A : Type ℓ} (P : A → Type κ) (xs : List A) (y : A) → All P xs → P y → All P (xs ++ y ∷ [])
All-append P [] y all last = (last, tt)
All-append P (x ∷ xs) y (first, rest) last = (first, All-append P xs y rest last)

module _ {κ} (P : EvidenceRef → Type κ) where
  push_evidence-All :
      (e : EvidenceRef) (es : List EvidenceRef) → P e → All P es → All P (push_evidence e es)
  unfolding push_evidence
  push_evidence-All e es h all = elim (Bool-cases (any (λ f. f.source_id == e.source_id) es)) [
    | inl there ↦ rw there all
    | inr new ↦ rw new (All-append P es e all h)
  ]

  merge_evidence-All :
      (es known : List EvidenceRef) → All P es → All P known → All P (merge_evidence es known)
  unfolding merge_evidence
  merge_evidence-All [] known h all = all
  merge_evidence-All (e ∷ es) known (first, rest) all =
      merge_evidence-All es (push_evidence e known) rest (push_evidence-All e known first all)

push_evidence-ne-nil :
    (e : EvidenceRef) (es : List EvidenceRef)
    → is_empty es ≡ false
    → is_empty (push_evidence e es) ≡ false
unfolding push_evidence
push_evidence-ne-nil e [] h = cc
push_evidence-ne-nil e (f ∷ fs) h =
    elim (Bool-cases (any (λ f. f.source_id == e.source_id) (f ∷ fs))) [
      | inl there ↦ rw there
      | inr new ↦ rw new
    ]

merge_evidence-ne-nil :
    (es known : List EvidenceRef)
    → is_empty known ≡ false
    → is_empty (merge_evidence es known) ≡ false
unfolding merge_evidence
merge_evidence-ne-nil [] known h = h
merge_evidence-ne-nil (e ∷ es) known h =
    merge_evidence-ne-nil es (push_evidence e known) (push_evidence-ne-nil e known h)

module _ (p : Platform) (sources : List SourceMemory) where
  merge_equivalent-All :
      (cs : List Candidate) (incoming : Candidate)
      → All (IsAccepted p sources) cs
      → IsAccepted p sources incoming
      → All (IsAccepted p sources) (merge_equivalent p cs incoming)
  unfolding merge_equivalent
  merge_equivalent-All [] incoming all h = (h, tt)
  merge_equivalent-All (c ∷ cs) incoming ((quoted, nonempty, among), rest) h =
      elim (Bool-cases
        (canonical p c.text == canonical p incoming.text && same_kind c.kind incoming.kind)) [
          | inl same ↦ rw same (
            (
              merge_evidence-All (IsQuoted p sources) incoming.evidence c.evidence h.0 quoted,
              merge_evidence-ne-nil incoming.evidence c.evidence nonempty,
              among,
            ),
            rest,
          )
          | inr other ↦
              rw other ((quoted, nonempty, among), merge_equivalent-All cs incoming rest h)
        ]

  accept_one-All :
      (c : Candidate) (r : Result Candidate RejectReason) (accepted : List Candidate)
      (out : List Rejected)
      → validate p sources c ≡ r
      → All (IsAccepted p sources) accepted
      → All (IsAccepted p sources) (accept_one p c r (accepted, out)).0
  unfolding accept_one
  accept_one-All c (ok v) accepted out e all =
      merge_equivalent-All accepted v all (validate-IsAccepted p sources c v e)
  accept_one-All c (err reason) accepted out e all = all

  either-All :
      (b : Bool) (x y : List Candidate × List Rejected)
      → All (IsAccepted p sources) x.0
      → All (IsAccepted p sources) y.0
      → All (IsAccepted p sources) (if b then x else y).0
  either-All true x y h k = h
  either-All false x y h k = k

  -- All claims that are accepted have evidence, all of it quoted, and show what they say.
  pub accept-All :
      (max index : ℕ) (cs : List Candidate) (found : List Candidate × List Rejected)
      → All (IsAccepted p sources) found.0
      → All (IsAccepted p sources) (accept p sources max index cs found).0
  unfolding accept
  accept-All max index [] found all = all
  accept-All max index (c ∷ cs) found all = accept-All max (index + 1) cs _ (
      either-All (leb max index) (found.0, reject p c too_many_candidates found.1) _ all
        (accept_one-All c _ found.0 found.1 refl all))
