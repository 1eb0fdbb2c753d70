-- ===== src/Compression/Extract.antt =====
-- The extractive summarizer of crates/surreal-memory/src/compression/summarizer.rs. Its map of
-- candidates by key, with the order of the keys, is one list of keys and candidates.
use surreal_memory_server.Common.{
  String, ◌||◌, Option, none, some, List, [], ◌∷◌, ◌++◌, any, map, ◌==◌, if◌then◌else◌,
}
use surreal_memory_server.Compression.Contract.{
  Platform, ClaimKind, fact, Qualifiers, EvidenceRef, SourceMemory, Candidate, not_stated,
}
use surreal_memory_server.Compression.Text.{canonical, sentences}
use surreal_memory_server.Compression.Wording.{qualifiers_of, kind_of, has_validation_cue}

unfoldable pub push_evidence : EvidenceRef → List EvidenceRef → List EvidenceRef
push_evidence e es = if any (λ f. f.source_id == e.source_id) es then es else es ++ e ∷ []

unfoldable pub put_claim :
    String → Candidate → EvidenceRef → List (String × Candidate) → List (String × Candidate)
unfolding push_evidence
put_claim key fresh e [] = (key, fresh) ∷ []
put_claim key fresh e ((k, c) ∷ rest) =
    if k == key
    then (k, record c { evidence = push_evidence e c.evidence }) ∷ rest
    else (k, c) ∷ put_claim key fresh e rest

-- A sentence that hedges or reports a failure is kept as a fact.
unfoldable pub kind_or_fact : Option ClaimKind → Qualifiers → Option ClaimKind
kind_or_fact (some k) q = some k
kind_or_fact none q = if q.uncertain || q.failed_approach then some fact else none

module _ (p : Platform) where
  unfoldable pub take_sentence :
      SourceMemory
      → String
      → Option ClaimKind
      → List (String × Candidate)
      → List (String × Candidate)
  unfolding put_claim canonical qualifiers_of has_validation_cue
  take_sentence source sentence none found = found
  take_sentence source sentence (some k) found =
      let e : EvidenceRef = record {
        source_id = source.id;
        source_version = source.version;
        quote = sentence;
      } in
      put_claim (canonical p sentence)
        (record {
          kind = k;
          text = sentence;
          qualifiers = qualifiers_of p sentence;
          evidence = e ∷ [];
          applicability = not_stated;
          validated = has_validation_cue p sentence;
        })
        e found

  unfoldable pub take_sentences :
      SourceMemory → List String → List (String × Candidate) → List (String × Candidate)
  unfolding take_sentence kind_or_fact kind_of qualifiers_of
  take_sentences source [] found = found
  take_sentences source (sentence ∷ rest) found = take_sentences source rest (
      take_sentence source sentence (kind_or_fact (kind_of p sentence) (qualifiers_of p sentence))
        found)

  unfoldable pub extract_from :
      List SourceMemory → List (String × Candidate) → List (String × Candidate)
  unfolding take_sentences sentences
  extract_from [] found = found
  extract_from (source ∷ rest) found =
      extract_from rest (take_sentences source (sentences source.content) found)

  unfoldable pub extract_candidates : List SourceMemory → List Candidate
  unfolding extract_from
  extract_candidates sources = map (λ kc. kc.1) (extract_from sources [])
