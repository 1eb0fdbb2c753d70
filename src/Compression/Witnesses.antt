-- ===== src/Compression/Witnesses.antt =====
-- The theorems on the compression at the notes of `Examples`.
use surreal_memory_server.Common.{
  true, false, Option, some, List, [], ◌∷◌, All, length, map, get_elem?, is_empty, Result, ok, ◌≡◌,
  refl, arith,
}
use surreal_memory_server.Compression.Contract.{Candidate, extractive, not_stated, constraint, fact}
use surreal_memory_server.Compression.Wording.{qualifiers_of}
use surreal_memory_server.Compression.Extract.{extract_candidates}
use surreal_memory_server.Compression.Lineage.{independent_roots}
use surreal_memory_server.Compression.Status.{ClaimStatus}
use surreal_memory_server.Compression.Promotion.{corroborated}
use surreal_memory_server.Compression.Promotion.Rule.{MayGuide}
use surreal_memory_server.Compression.Gate.Validate.{Rejected, dropped_for_budget, is_supported}
use surreal_memory_server.Compression.Gate.Validate.Accepted.{IsQuoted}
use surreal_memory_server.Compression.Gate.Merge.{ValidatedClaim, evidence_sources}
use surreal_memory_server.Compression.Gate.Budget.{DeferReason, shrink}
use surreal_memory_server.Compression.Gate.Budget.Dropping.{Shrunk, shrink-Shrunk}
use surreal_memory_server.Compression.Gate.Run.{run, default_limits, GatedSummary}
use surreal_memory_server.Compression.Gate.Run.Bounds.{IsWithin, run_bounds}
use surreal_memory_server.Compression.Gate.Run.Grounded.{Unhedged, run_grounded, run_promoted}
use surreal_memory_server.Compression.Examples.{plain, two_notes, lower}

abbrev nothing : GatedSummary
nothing = record {
  claims = [];
  rejections = [];
  rendered = "";
  tokens_before = 0;
  tokens_after = 0;
}

abbrev summary_of : Option (Result GatedSummary DeferReason) → GatedSummary
summary_of (some (ok g)) = g
summary_of _ = nothing

abbrev proposed : List Candidate
proposed = extract_candidates plain two_notes

abbrev published : GatedSummary
published = summary_of (run plain two_notes proposed (default_limits plain) extractive)

published_lem : run plain two_notes proposed (default_limits plain) extractive ≡ some (ok published)
unfolding run extract_candidates is_supported lower
published_lem = refl

run_bounds_example : IsWithin plain two_notes proposed (default_limits plain) extractive published
run_bounds_example =
    run_bounds plain two_notes proposed (default_limits plain) extractive published published_lem

abbrev rule : ValidatedClaim
rule = record {
  claim = record {
    kind = constraint;
    text = "Never commit secrets to the repository.";
    qualifiers = record {
      negated = true;
      uncertain = false;
      failed_approach = false;
      quoted_instruction = false;
      one_off = false;
    };
    evidence =
        record {
          source_id = "a";
          source_version = 1;
          quote = "Never commit secrets to the repository.";
        }
        ∷ record {
          source_id = "b";
          source_version = 1;
          quote = "Never  commit secrets to the repository!";
        }
        ∷ [];
    applicability = not_stated;
    validated = false;
  };
  roots = "a" ∷ "b" ∷ [];
  promotion = record {
    status = ClaimStatus.promoted;
    reason = "corroborated";
    strength = corroborated 2;
  };
}

rule_lem : get_elem? 0 published.claims ≡ some rule
unfolding run extract_candidates is_supported lower
rule_lem = refl

run_grounded_example :
    All (IsQuoted plain two_notes) rule.claim.evidence × (is_empty rule.claim.evidence ≡ false)
run_grounded_example =
    run_grounded plain two_notes proposed (default_limits plain) extractive published 0 rule
      published_lem rule_lem

run_promoted_example :
    Unhedged (qualifiers_of plain rule.claim.text)
    × MayGuide rule.claim
        (length rule.roots)
        (map (λ s. s.origin) (evidence_sources two_notes rule.claim.evidence))
    × (rule.roots ≡ independent_roots plain (evidence_sources two_notes rule.claim.evidence))
run_promoted_example =
    run_promoted plain two_notes proposed (default_limits plain) extractive published 0 rule
      published_lem rule_lem refl

-- The rule, and a fact that is dropped first.
abbrev rule_and_fact : List ValidatedClaim
rule_and_fact =
    rule
    ∷ record rule { claim = record rule.claim { kind = fact; text = "Maybe the cache is stale." } }
    ∷ []

shrink-Shrunk_example :
    (r : Result (List ValidatedClaim × List Rejected) DeferReason) × (shrink 3 30 extractive 2
        rule_and_fact []
      ≡ some r)
    × Shrunk 30 extractive 2 rule_and_fact r
shrink-Shrunk_example = shrink-Shrunk 3 30 extractive 2 rule_and_fact [] (omega arith)

dropped_fact :
    shrink 3 30 extractive 2 rule_and_fact []
    ≡ some (
        ok (
          rule ∷ [],
          record { text = "Maybe the cache is stale."; reason = dropped_for_budget } ∷ [],
        ))
unfolding shrink
dropped_fact = refl
