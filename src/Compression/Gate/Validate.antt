-- ===== src/Compression/Gate/Validate.antt =====
-- What a claim must meet, from `validate` and `is_supported` of
-- crates/surreal-memory/src/compression/gate.rs.
pub mod Accepted
use surreal_memory_server.Common.{
  ℕ, String, Bool, true, false, ◌||◌, ◌&&◌, not, Option, none, some, List, [], ◌∷◌, any, all, map,
  keep, length, ◌==◌, eqb, leb, ltb, if◌then◌else◌, is_empty, Result, ok, err,
}
use surreal_memory_server.Common.Text.{count}
use surreal_memory_server.Common.Words.{contains, split_whitespace, all_chars, join}
use surreal_memory_server.Compression.Contract.{
  Platform, EvidenceRef, SourceMemory, Candidate, Qualifiers,
}
use surreal_memory_server.Compression.Text.{canonical, normalize, content_words}
use surreal_memory_server.Compression.Wording.{qualifiers_of, has_validation_cue}

pub data RejectReason : Type 0 where
  no_evidence unknown_source stale_source_version quote_not_in_source : RejectReason
  unsupported negation_changed too_many_candidates dropped_for_budget : RejectReason

pub record Rejected : Type 0 where
  pub text : String
  pub reason : RejectReason

abbrev pub min_quote_chars : ℕ
min_quote_chars = 8

abbrev pub min_word_len : ℕ
min_word_len = 4

-- The map of the sources by their id: of two sources with one id it keeps the later.
unfoldable pub by_id : List SourceMemory → String → Option SourceMemory
by_id [] id = none
by_id (s ∷ rest) id = elim (by_id rest id) [
  | some t ↦ some t
  | none ↦ if s.id == id then some s else none
]

abbrev is_digit : ℕ → Bool
is_digit c = leb 48 c && leb c 57

abbrev one_of : List String → String → Bool
one_of words w = any (λ q. q == w) words

abbrev pub either : Qualifiers → Qualifiers → Qualifiers → Qualifiers
either a b c = record {
  negated = a.negated || (b.negated || c.negated);
  uncertain = a.uncertain || (b.uncertain || c.uncertain);
  failed_approach = a.failed_approach || (b.failed_approach || c.failed_approach);
  quoted_instruction = a.quoted_instruction || (b.quoted_instruction || c.quoted_instruction);
  one_off = a.one_off || (b.one_off || c.one_off);
}

abbrev pub differ : Bool → Bool → Bool
differ true b = not b
differ false b = b

module _ (p : Platform) where
  unfoldable pub enough_support : ℕ → ℕ → Bool
  enough_support found words =
      p.at_least (p.divided_by (p.of_nat found) (p.of_nat words)) (p.quotient 8 10)

  -- Nearly all of a claim's longer words, and all its numbers, stand in the quotes.
  unfoldable pub is_supported : String → String → Bool
  unfolding canonical content_words split_whitespace all_chars enough_support
  is_supported claim quotes =
      let quoted = content_words p quotes 1 in
      let numbers_ok =
        all (one_of quoted) (keep (all_chars is_digit) (split_whitespace (canonical p claim))) in
      let words = content_words p claim min_word_len in
      if is_empty words
      then numbers_ok
      else numbers_ok && enough_support (length (keep (one_of quoted) words)) (length words)

  unfoldable pub check_found : EvidenceRef → Option SourceMemory → Option RejectReason
  unfolding normalize contains count
  check_found e none = some unknown_source
  check_found e (some source) =
      let quote = normalize p e.quote in
      if not (eqb source.version e.source_version)
      then some stale_source_version
      else if ltb (count quote) min_quote_chars || not (contains (normalize p source.content) quote)
      then some quote_not_in_source
      else none

  -- The first piece of evidence that does not hold.
  unfoldable pub check_evidence : List SourceMemory → List EvidenceRef → Option RejectReason
  unfolding check_found by_id
  check_evidence sources [] = none
  check_evidence sources (e ∷ rest) = elim (check_found e (by_id sources e.source_id)) [
    | some reason ↦ some reason
    | none ↦ check_evidence sources rest
  ]

  unfoldable pub check_wording : Candidate → String → Result Candidate RejectReason
  check_wording c quotes =
      let claim_wording = qualifiers_of p c.text in
      let quote_wording = qualifiers_of p quotes in
      if not (is_supported c.text quotes)
      then err unsupported
      else if differ claim_wording.negated quote_wording.negated
      then err negation_changed
      else ok (record c {
        qualifiers = either c.qualifiers claim_wording quote_wording;
        validated = c.validated && has_validation_cue p quotes;
      })

  unfoldable pub unless_refused : Candidate → Option RejectReason → Result Candidate RejectReason
  unfolding check_wording join
  unless_refused c (some reason) = err reason
  unless_refused c none = check_wording c (join " " (map (λ e. e.quote) c.evidence))

  unfoldable pub validate : List SourceMemory → Candidate → Result Candidate RejectReason
  unfolding unless_refused check_evidence
  validate sources c =
      if is_empty c.evidence
      then err no_evidence
      else unless_refused c (check_evidence sources c.evidence)
