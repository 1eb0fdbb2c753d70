-- ===== src/Compression/Lineage.antt =====
-- The independent evidence of crates/surreal-memory/src/compression/lineage.rs. A `BTreeSet` of
-- texts is the sorted list of its elements.
pub mod Copies
use surreal_memory_server.Common.{
  String, Bool, true, false, List, [], ◌∷◌, any, ◌==◌, if◌then◌else◌, is_empty,
}
use surreal_memory_server.Common.Sort.{text_le}
use surreal_memory_server.Compression.Contract.{Platform, SourceMemory}
use surreal_memory_server.Compression.Text.{content_hash}

-- `BTreeSet::insert`.
unfoldable pub insert_root : String → List String → List String
insert_root r [] = r ∷ []
insert_root r (s ∷ rest) =
    if r == s then s ∷ rest else if text_le r s then r ∷ s ∷ rest else s ∷ insert_root r rest

-- `BTreeSet::extend`.
unfoldable pub insert_roots : List String → List String → List String
unfolding insert_root
insert_roots [] roots = roots
insert_roots (r ∷ rs) roots = insert_roots rs (insert_root r roots)

module _ (p : Platform) where
  -- The hashes that were seen, and the roots so far.
  unfoldable pub roots_from : List SourceMemory → List String → List String → List String
  unfolding insert_root insert_roots content_hash
  roots_from [] seen roots = roots
  roots_from (s ∷ rest) seen roots =
      let hash = content_hash p s.content in
      let summary = roots_from rest seen (insert_roots s.root_sources roots) in
      let copy = roots_from rest seen roots in
      let original = roots_from rest (hash ∷ seen) (insert_root s.id roots) in
      if is_empty s.root_sources
      then if any (λ h. h == hash) seen then copy else original
      else summary

  unfoldable pub independent_roots : List SourceMemory → List String
  unfolding roots_from
  independent_roots sources = roots_from sources [] []
