-- ===== src/Compression/Promotion.antt =====
-- The promotion rules of crates/surreal-memory/src/compression/promotion.rs.
pub mod Rule
use surreal_memory_server.Common.{ℕ, String, Bool, true, false, List, any, leb, not, if◌then◌else◌}
use surreal_memory_server.Compression.Contract.{
  Candidate, Qualifiers, SourceOrigin, user, assistant, is_guidance,
}
use surreal_memory_server.Compression.Status.{ClaimStatus}

pub data EvidenceStrength : Type 0 where
  single : EvidenceStrength
  corroborated : ℕ → EvidenceStrength
  validated : EvidenceStrength

pub record Promotion : Type 0 where
  pub status : ClaimStatus
  pub reason : String
  pub strength : EvidenceStrength

abbrev pub min_independent_roots : ℕ
min_independent_roots = 2

unfoldable pub is_person_or_agent : SourceOrigin → Bool
is_person_or_agent user = true
is_person_or_agent assistant = true
is_person_or_agent _ = false

unfoldable pub strength_of : Bool → ℕ → EvidenceStrength
strength_of was_validated roots =
    if was_validated
    then validated
    else if leb min_independent_roots roots
    then corroborated roots
    else single

abbrev held : EvidenceStrength → ClaimStatus → String → Promotion
held strength status reason = record { status = status; reason = reason; strength = strength }

unfoldable pub by_strength : EvidenceStrength → Promotion
by_strength validated = held validated ClaimStatus.promoted "validated"
by_strength (corroborated n) = held (corroborated n) ClaimStatus.promoted "corroborated"
by_strength single = held single ClaimStatus.candidate "insufficient_independent_evidence"

unfoldable pub decide : Candidate → ℕ → List SourceOrigin → Promotion
unfolding is_guidance is_person_or_agent strength_of by_strength
decide c roots origins =
    let strength = strength_of c.validated roots in
    let q = c.qualifiers in
    if not (is_guidance c.kind)
    then held strength ClaimStatus.candidate "not_guidance"
    else if q.quoted_instruction
    then held strength ClaimStatus.quarantined "quoted_instruction"
    else if q.uncertain
    then held strength ClaimStatus.quarantined "uncertain"
    else if q.failed_approach
    then held strength ClaimStatus.quarantined "failed_approach"
    else if q.one_off
    then held strength ClaimStatus.quarantined "one_off_preference"
    else if not (any (λ o. is_person_or_agent o) origins)
    then held strength ClaimStatus.quarantined "non_user_origin"
    else by_strength strength
