-- ===== src/Compression/Gate/Run.antt =====
-- The whole gate: `run` of crates/surreal-memory/src/compression/gate.rs.
pub mod Bounds
pub mod Grounded
use mathlib.Core.Option
use surreal_memory_server.Common.{
  ℕ, zero, suc, String, Bool, true, false, Option, none, some, List, [], ◌∷◌, ◌+◌, map, length, ltb,
  if◌then◌else◌, is_empty, Result, ok, err,
}
use surreal_memory_server.Compression.Contract.{Platform, SourceMemory, Candidate, SummaryMethod}
use surreal_memory_server.Compression.Text.{estimate_tokens}
use surreal_memory_server.Compression.Gate.Validate.{Rejected}
use surreal_memory_server.Compression.Gate.Merge.{ValidatedClaim, accept, judge}
use surreal_memory_server.Compression.Gate.Budget.{
  DeferReason, input_too_large, no_claims, insufficient_reduction, render, shrink,
}

pub record GatedSummary : Type 0 where
  pub claims : List ValidatedClaim
  pub rejections : List Rejected
  pub rendered : String
  pub tokens_before : ℕ
  pub tokens_after : ℕ

unfoldable pub total_tokens : List SourceMemory → ℕ
unfolding estimate_tokens
total_tokens [] = 0
total_tokens (s ∷ rest) = estimate_tokens s.content + total_tokens rest

module _ (p : Platform) where
  pub record Limits : Type 0 where
    pub max_input_tokens : ℕ
    pub max_output_tokens : ℕ
    pub min_reduction : p.F64
    pub max_candidates : ℕ

  abbrev pub default_limits : Limits
  default_limits = record {
    max_input_tokens = 32000;
    max_output_tokens = 1500;
    min_reduction = p.quotient 2 10;
    max_candidates = 64;
  }

  -- The most tokens that are enough smaller than the input's.
  unfoldable pub allowed_tokens : Limits → ℕ → ℕ
  allowed_tokens limits before =
      p.floor (p.times (p.of_nat before) (p.minus (p.quotient 1 1) limits.min_reduction))

  unfoldable pub finish :
      List SourceMemory
      → Limits
      → SummaryMethod
      → Result (List ValidatedClaim × List Rejected) DeferReason
      → Result GatedSummary DeferReason
  unfolding total_tokens render estimate_tokens allowed_tokens
  finish sources limits method (err reason) = err reason
  finish sources limits method (ok (claims, out)) =
      let before = total_tokens sources in
      let rendered = render claims method (length sources) in
      let after = estimate_tokens rendered in
      if is_empty claims
      then err no_claims
      else if ltb (allowed_tokens limits before) after
      then err (insufficient_reduction before after)
      else ok (record {
        claims = claims;
        rejections = out;
        rendered = rendered;
        tokens_before = before;
        tokens_after = after;
      })

  -- Every round drops a claim, so one round more than the claims is enough.
  unfoldable pub shrink_accepted :
      List SourceMemory
      → Limits
      → SummaryMethod
      → List Candidate × List Rejected
      → Option (Result (List ValidatedClaim × List Rejected) DeferReason)
  unfolding shrink judge
  shrink_accepted sources limits method (accepted, out) =
      shrink (suc (length accepted)) limits.max_output_tokens method (length sources)
        (map (λ c. judge p sources c) accepted) out

  -- `none` is a run that does not return.
  unfoldable pub run :
      List SourceMemory
      → List Candidate
      → Limits
      → SummaryMethod
      → Option (Result GatedSummary DeferReason)
  unfolding total_tokens accept shrink_accepted finish
  run sources candidates limits method =
      if ltb limits.max_input_tokens (total_tokens sources)
      then some (err (input_too_large (total_tokens sources) limits.max_input_tokens))
      else Option.map (λ r. finish sources limits method r)
          (shrink_accepted sources limits method
            (accept p sources limits.max_candidates 0 candidates ([], [])))
