-- ===== src/Compression/Gate/Merge.antt =====
-- Acceptance of claims and the merge of equivalent ones, from `run` and `merge_equivalent` of
-- crates/surreal-memory/src/compression/gate.rs.
pub mod Accepted
use surreal_memory_server.Common.{
  ℕ, String, Bool, true, false, ◌||◌, ◌&&◌, Option, none, some, List, [], ◌∷◌, ◌++◌, ◌+◌, map,
  length, ◌==◌, leb, if◌then◌else◌, Result, ok, err,
}
use surreal_memory_server.Compression.Contract.{
  Platform, EvidenceRef, SourceMemory, Candidate, same_kind,
}
use surreal_memory_server.Compression.Text.{canonical}
use surreal_memory_server.Compression.Extract.{push_evidence}
use surreal_memory_server.Compression.Lineage.{independent_roots}
use surreal_memory_server.Compression.Promotion.{Promotion, decide}
use surreal_memory_server.Compression.Gate.Validate.{
  RejectReason, too_many_candidates, Rejected, validate, by_id,
}

-- The evidence of a source that is not quoted yet.
unfoldable pub merge_evidence : List EvidenceRef → List EvidenceRef → List EvidenceRef
unfolding push_evidence
merge_evidence [] existing = existing
merge_evidence (e ∷ es) existing = merge_evidence es (push_evidence e existing)

-- A claim with its evidence's roots and the decision on it.
pub record ValidatedClaim : Type 0 where
  pub claim : Candidate
  pub roots : List String
  pub promotion : Promotion

-- The sources that a claim's evidence names.
unfoldable pub evidence_sources : List SourceMemory → List EvidenceRef → List SourceMemory
unfolding by_id
evidence_sources sources [] = []
evidence_sources sources (e ∷ es) = elim (by_id sources e.source_id) [
  | some s ↦ s ∷ evidence_sources sources es
  | none ↦ evidence_sources sources es
]

module _ (p : Platform) where
  unfoldable pub merge_equivalent : List Candidate → Candidate → List Candidate
  unfolding merge_evidence canonical same_kind
  merge_equivalent [] incoming = incoming ∷ []
  merge_equivalent (c ∷ cs) incoming =
      if canonical p c.text == canonical p incoming.text && same_kind c.kind incoming.kind
      then record c {
        evidence = merge_evidence incoming.evidence c.evidence;
        validated = c.validated || incoming.validated;
      }
        ∷ cs
      else c ∷ merge_equivalent cs incoming

  abbrev pub reject : Candidate → RejectReason → List Rejected → List Rejected
  reject c reason out = out ++ record { text = c.text; reason = reason } ∷ []

  unfoldable pub accept_one :
      Candidate
      → Result Candidate RejectReason
      → List Candidate × List Rejected
      → List Candidate × List Rejected
  unfolding merge_equivalent
  accept_one c (ok valid) (accepted, out) = (merge_equivalent accepted valid, out)
  accept_one c (err reason) (accepted, out) = (accepted, reject c reason out)

  -- The candidates from an index on.
  unfoldable pub accept :
      List SourceMemory
      → ℕ
      → ℕ
      → List Candidate
      → List Candidate × List Rejected
      → List Candidate × List Rejected
  unfolding accept_one validate
  accept sources max_candidates index [] found = found
  accept sources max_candidates index (c ∷ cs) (accepted, out) =
      accept sources max_candidates (index + 1) cs (
        if leb max_candidates index
        then (accepted, reject c too_many_candidates out)
        else accept_one c (validate p sources c) (accepted, out))

  unfoldable pub judge : List SourceMemory → Candidate → ValidatedClaim
  unfolding evidence_sources independent_roots decide
  judge sources c =
      let behind = evidence_sources sources c.evidence in
      let roots = independent_roots p behind in
      record {
        claim = c;
        roots = roots;
        promotion = decide c (length roots) (map (λ s. s.origin) behind);
      }
