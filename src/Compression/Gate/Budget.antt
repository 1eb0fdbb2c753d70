-- ===== src/Compression/Gate/Budget.antt =====
-- The rendering of a summary and the loop that drops claims until it fits, from `render`,
-- `lowest_priority_droppable` and `run` of crates/surreal-memory/src/compression/gate.rs.
pub mod Dropping
pub mod Kept
use mathlib.Core.Option
use surreal_memory_server.Common.{
  ℕ, zero, suc, String, Bool, true, false, ◌||◌, ◌&&◌, not, Option, none, some, List, [], ◌∷◌, ◌++◌,
  ◌+◌, map, keep, length, eqb, ltb, if◌then◌else◌, is_empty, Result, ok, err,
}
use surreal_memory_server.Common.Words.{decimal}
use surreal_memory_server.Compression.Contract.{
  ClaimKind, decision, constraint, lesson, open_question, conflict, fact, same_kind, is_protected,
  drop_priority, SummaryMethod, as_str,
}
use surreal_memory_server.Compression.Text.{estimate_tokens}
use surreal_memory_server.Compression.Gate.Validate.{Rejected, dropped_for_budget}
use surreal_memory_server.Compression.Gate.Merge.{ValidatedClaim}
use Prim.Native.String

abbrev pub protected : ValidatedClaim → Bool
protected v = is_protected v.claim.kind

-- The claim with the least key among those that may be dropped: its priority, and its place. Keys
-- are pairs of a priority and a place in reverse, so of equal priorities the last comes first.
unfoldable pub lowest_droppable : List ValidatedClaim → Option (ℕ × ℕ)
unfolding is_protected drop_priority
lowest_droppable [] = none
lowest_droppable (v ∷ vs) = elim (lowest_droppable vs) [
  | none ↦ if protected v then none else some (drop_priority v.claim.kind, 0)
  | some (k, i) ↦
      if protected v
      then some (k, suc i)
      else if ltb (drop_priority v.claim.kind) k
      then some (drop_priority v.claim.kind, 0)
      else some (k, suc i)
]

unfoldable pub lowest_priority_droppable : List ValidatedClaim → Option ℕ
unfolding lowest_droppable
lowest_priority_droppable claims = Option.map (λ ki. ki.1) (lowest_droppable claims)

-- `Vec::remove`; `none` is its panic.
unfoldable pub remove : ℕ → List ValidatedClaim → Option (ValidatedClaim × List ValidatedClaim)
remove i [] = none
remove zero (v ∷ vs) = some (v, vs)
remove (suc i) (v ∷ vs) = Option.map (λ wr. (wr.0, v ∷ wr.1)) (remove i vs)

abbrev sections : List (ClaimKind × String)
sections =
    (constraint, "Constraints")
    ∷ (decision, "Decisions")
    ∷ (lesson, "Lessons")
    ∷ (open_question, "Open questions")
    ∷ (conflict, "Conflicts")
    ∷ (fact, "Unconfirmed notes")
    ∷ []

unfoldable pub render_lines : String → List ValidatedClaim → String
render_lines out [] = out
render_lines out (v ∷ vs) = render_lines (String.◌++◌ out (String.◌++◌ "\n- " v.claim.text)) vs

unfoldable pub render_section : String → String → List ValidatedClaim → String
unfolding render_lines
render_section title out [] = out
render_section title out (v ∷ vs) =
    render_lines (String.◌++◌ out (String.◌++◌ "\n" (String.◌++◌ title ":"))) (v ∷ vs)

unfoldable pub render_sections : List (ClaimKind × String) → List ValidatedClaim → String → String
unfolding render_section same_kind
render_sections [] claims out = out
render_sections ((kind, title) ∷ rest) claims out =
    render_sections rest claims
      (render_section title out (keep (λ v. same_kind v.claim.kind kind) claims))

unfoldable pub render : List ValidatedClaim → SummaryMethod → ℕ → String
unfolding render_sections as_str decimal
render claims method source_count = render_sections sections claims (
    String.◌++◌ "[" (
      String.◌++◌ (as_str method)
        (String.◌++◌ " summary of " (String.◌++◌ (decimal source_count) " memories]"))))

pub data DeferReason : Type 0 where
  input_too_large : ℕ → ℕ → DeferReason
  no_claims : DeferReason
  over_budget : ℕ → ℕ → DeferReason
  insufficient_reduction : ℕ → ℕ → DeferReason

abbrev pub dropped : ValidatedClaim → List Rejected → List Rejected
dropped v out = out ++ record { text = v.claim.text; reason = dropped_for_budget } ∷ []

-- The claims that stay and the rejections, once the summary fits. `none` is a loop whose fuel is
-- used up, or a panic of `Vec::remove`.
unfoldable pub shrink :
    ℕ
    → ℕ
    → SummaryMethod
    → ℕ
    → List ValidatedClaim
    → List Rejected
    → Option (Result (List ValidatedClaim × List Rejected) DeferReason)
unfolding render estimate_tokens lowest_priority_droppable remove
shrink zero max method source_count claims out = none
shrink (suc fuel) max method source_count claims out =
    let tokens = estimate_tokens (render claims method source_count) in
    if ltb max tokens
    then elim (lowest_priority_droppable claims) [
      | none ↦ some (err (over_budget tokens max))
      | some position ↦ elim (remove position claims) [
        | none ↦ none
        | some (v, rest) ↦ shrink fuel max method source_count rest (dropped v out)
      ]
    ]
    else some (ok (claims, out))
