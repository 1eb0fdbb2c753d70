-- ===== src/Compression/Examples.antt =====
-- Runs of the compression's code on the inputs of its own tests.
use surreal_memory_server.Common.{
  ℕ, String, true, Option, none, some, List, [], ◌∷◌, ◌+◌, ◌-◌, ◌*◌, ◌/◌, ◌||◌, ◌&&◌, leb,
  if◌then◌else◌, ◌≡◌, refl, map, Result, ok, err,
}
use surreal_memory_server.Compression.Contract.{
  Platform, SourceMemory, user, constraint, decision, open_question, lesson, extractive,
}
use surreal_memory_server.Compression.Text.{canonical, sentences}
use surreal_memory_server.Compression.Wording.{kind_of, qualifiers_of}
use surreal_memory_server.Compression.Extract.{extract_candidates}
use surreal_memory_server.Compression.Lineage.{independent_roots}
use surreal_memory_server.Compression.Gate.Validate.{is_supported}
use surreal_memory_server.Compression.Gate.Run.{run, default_limits, GatedSummary}
use surreal_memory_server.Compression.Gate.Budget.{DeferReason}
use Prim.Native.Char.{code}
use Prim.Native.String
use Prim.Native.String.{slice}

-- ASCII's part of the tables, the identity for a hash, and thousandths for doubles.
unfoldable pub lower_at : ℕ → String
lower_at i = slice "abcdefghijklmnopqrstuvwxyz" i (i + 1)

unfoldable pub lower : String → String
unfolding lower_at
lower String.[] = String.[]
lower (String.◌∷◌ c s) =
    if leb 65 (code c) && leb (code c) 90
    then String.◌++◌ (lower_at (code c - 65)) (lower s)
    else String.◌∷◌ c (lower s)

abbrev pub plain : Platform
plain = record {
  nfc = λ s. s;
  to_lowercase = lower;
  is_alphanumeric =
      λ c. (leb 48 c && leb c 57) || (leb 65 c && leb c 90) || (leb 97 c && leb c 122);
  sha256_hex = λ s. s;
  F64 = ℕ;
  quotient = λ m n. m * 1000 / n;
  of_nat = λ n. n * 1000;
  minus = λ a b. a - b;
  times = λ a b. a * b / 1000;
  divided_by = λ a b. a * 1000 / b;
  at_least = λ a b. leb b a;
  floor = λ a. a / 1000;
}

canonical_run : canonical plain "  Always  use TLS!! " ≡ "always use tls"
unfolding canonical lower
canonical_run = refl

sentences_run :
    sentences "We decided X. Why not Y?\nUse version 1.2.3 now."
    ≡ "We decided X." ∷ "Why not Y?" ∷ "Use version 1.2.3 now." ∷ []
unfolding sentences
sentences_run = refl

kinds_run :
    map (kind_of plain) (
      "Never commit secrets." ∷ "We decided to use SurrealKV." ∷ "Root cause was a stale index."
      ∷ "Which region do we ship to?" ∷ "The weather was nice." ∷ [])
    ≡ some constraint ∷ some decision ∷ some lesson ∷ some open_question ∷ none ∷ []
unfolding kind_of lower
kinds_run = refl

negation_run : (qualifiers_of plain "We must not store raw keys.").negated ≡ true
unfolding qualifiers_of lower
negation_run = refl

abbrev pub source : String → String → SourceMemory
source id content = record {
  id = id;
  version = 1;
  content = content;
  origin = user;
  root_sources = [];
  observed_at = none;
  valid_until = none;
}

abbrev pub two_notes : List SourceMemory
two_notes =
    source "a"
      "Lunch was good and the weather was nice all day, so nothing was done. Never commit secrets to the repository."
    ∷ source "b" "The meeting was long. Never  commit secrets to the repository!"
    ∷ []

copies_run :
    independent_roots plain (
      source "a" "Never commit secrets."
      ∷ source "b" "never   commit secrets"
      ∷ source "c" "Pin the SDK version."
      ∷ [])
    ≡ "a" ∷ "c" ∷ []
unfolding independent_roots lower
copies_run = refl

abbrev outcome : Option (Result GatedSummary DeferReason) → String
outcome none = "no answer"
outcome (some (ok g)) = g.rendered
outcome (some (err e)) = "deferred"

gate_run :
    outcome
      (run plain two_notes (extract_candidates plain two_notes) (default_limits plain) extractive)
    ≡ "[extractive summary of 2 memories]\nConstraints:\n- Never commit secrets to the repository."
unfolding run extract_candidates lower is_supported
gate_run = refl
