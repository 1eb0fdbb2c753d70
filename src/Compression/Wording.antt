-- ===== src/Compression/Wording.antt =====
-- The cues by which crates/surreal-memory/src/compression/summarizer.rs reads a text.
use surreal_memory_server.Common.{
  String, Bool, ◌||◌, ◌&&◌, Option, none, some, List, [], ◌∷◌, any, if◌then◌else◌,
}
use surreal_memory_server.Common.Text.{trim_start}
use surreal_memory_server.Common.Words.{contains, starts_with, ends_with}
use surreal_memory_server.Compression.Contract.{
  Platform, ClaimKind, decision, constraint, lesson, open_question, Qualifiers,
}
use surreal_memory_server.Compression.Text.{canonical, normalize}
use Prim.Native.String.{◌++◌}

abbrev pub uncertain_cues : List String
uncertain_cues =
    "maybe" ∷ "might" ∷ "perhaps" ∷ "i think" ∷ "probably" ∷ "not sure" ∷ "could be" ∷ "i guess"
    ∷ "hypothesis" ∷ "suspect" ∷ "possibly" ∷ []

abbrev pub failed_cues : List String
failed_cues =
    "didnt work" ∷ "did not work" ∷ "doesnt work" ∷ "does not work" ∷ "failed" ∷ "no luck"
    ∷ "dead end" ∷ "wont work" ∷ []

abbrev pub one_off_cues : List String
one_off_cues =
    "for now" ∷ "this time" ∷ "just this once" ∷ "today only" ∷ "i prefer" ∷ "i like"
    ∷ "my preference" ∷ []

abbrev pub instruction_cues : List String
instruction_cues =
    "ignore previous" ∷ "ignore all" ∷ "ignore the above" ∷ "disregard" ∷ "system prompt"
    ∷ "you must" ∷ "override" ∷ "new instructions" ∷ []

abbrev pub constraint_cues : List String
constraint_cues =
    "must " ∷ "must not" ∷ "never " ∷ "always " ∷ "do not " ∷ "dont " ∷ "required" ∷ "forbidden"
    ∷ "may not" ∷ "shall " ∷ []

abbrev pub decision_cues : List String
decision_cues = "decided" ∷ "we will " ∷ "we chose" ∷ "agreed" ∷ "going with" ∷ "decision" ∷ []

abbrev pub lesson_cues : List String
lesson_cues =
    "learned" ∷ "lesson" ∷ "root cause" ∷ "turns out" ∷ "fixed by" ∷ "the fix" ∷ "works when"
    ∷ "workaround" ∷ []

abbrev pub open_cues : List String
open_cues = "open question" ∷ "unresolved" ∷ "tbd" ∷ "todo" ∷ "need to decide" ∷ []

abbrev pub negation_cues : List String
negation_cues =
    " not " ∷ " never " ∷ " no " ∷ " without " ∷ " dont " ∷ " cant " ∷ " wont " ∷ " cannot " ∷ []

abbrev pub validation_cues : List String
validation_cues =
    "confirmed" ∷ "verified" ∷ "validated" ∷ "tests pass" ∷ "tests passed" ∷ "reproduced" ∷ []

unfoldable pub contains_any : String → List String → Bool
unfolding contains
contains_any haystack cues = any (λ cue. contains haystack cue) cues

module _ (p : Platform) where
  unfoldable pub has_validation_cue : String → Bool
  unfolding contains_any canonical
  has_validation_cue text = contains_any (canonical p text) validation_cues

  -- The canonical text between two spaces.
  unfoldable pub spaced : String → String
  unfolding canonical
  spaced text = " " ++ (canonical p text ++ " ")

  unfoldable pub qualifiers_of : String → Qualifiers
  unfolding spaced contains_any contains starts_with trim_start
  qualifiers_of text =
      let canon = spaced text in
      let quoted = contains text "\"" || contains text "“" in
      record {
        negated = contains_any canon negation_cues;
        uncertain = contains_any canon uncertain_cues;
        failed_approach = contains_any canon failed_cues;
        quoted_instruction =
            contains_any canon instruction_cues
            && (quoted || starts_with (trim_start canon) "ignore");
        one_off = contains_any canon one_off_cues;
      }

  unfoldable pub kind_of : String → Option ClaimKind
  unfolding spaced contains_any normalize ends_with
  kind_of text =
      let canon = spaced text in
      if ends_with (normalize p text) "?" || contains_any canon open_cues
      then some open_question
      else if contains_any canon constraint_cues
      then some constraint
      else if contains_any canon decision_cues
      then some decision
      else if contains_any canon lesson_cues
      then some lesson
      else none
