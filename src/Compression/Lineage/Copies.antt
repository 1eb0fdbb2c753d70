-- ===== src/Compression/Lineage/Copies.antt =====
-- Copies of a source are no further evidence for crates/surreal-memory/src/compression/lineage.rs.
use surreal_memory_server.Common.{
  String, Bool, true, ◌||◌, ◌&&◌, List, [], ◌∷◌, ◌++◌, any, is_empty, ◌==◌, ◌≡◌, refl, Bool-cases,
  inl, inr, arith, eq_iff, subst,
}
use surreal_memory_server.Compression.Contract.{Platform, SourceMemory}
use surreal_memory_server.Compression.Text.{content_hash}
use surreal_memory_server.Compression.Lineage.{
  roots_from, independent_roots, insert_root, insert_roots,
}

module _ (p : Platform) (copy : SourceMemory) where
  -- A raw source with the content of `copy`, up to its normal form.
  abbrev pub same_content : SourceMemory → Bool
  same_content s =
      is_empty s.root_sources && content_hash p s.content == content_hash p copy.content

  abbrev seen_already : List String → Bool
  seen_already seen = any (λ h. h == content_hash p copy.content) seen

  still_seen :
      (s : SourceMemory) (rest : List SourceMemory) (seen : List String)
      → any (λ h. h == content_hash p s.content) seen ≡ true
      → (seen_already seen || any (λ t. same_content t) (s ∷ rest)) ≡ true
      → (seen_already seen || any (λ t. same_content t) rest) ≡ true
  still_seen s rest seen again h =
      elim (Bool-cases (content_hash p s.content == content_hash p copy.content)) [
        | inr other ↦ ground arith
        | inl equal ↦
            let same : content_hash p s.content ≡ content_hash p copy.content =
              (eq_iff _ _).0 equal in
            let there : seen_already seen ≡ true =
              subst (λ hash. any (λ h. h == hash) seen ≡ true) same again in
            rw there refl
      ]

  roots_from-copy :
      (sources : List SourceMemory) (seen roots : List String)
      → is_empty copy.root_sources ≡ true
      → (seen_already seen || any (λ s. same_content s) sources) ≡ true
      → roots_from p (sources ++ copy ∷ []) seen roots ≡ roots_from p sources seen roots
  unfolding roots_from
  roots_from-copy [] seen roots raw h = ground arith
  roots_from-copy (s ∷ rest) seen roots raw h = elim (Bool-cases (is_empty s.root_sources)) [
    | inr summary ↦
        rw summary
          (roots_from-copy rest seen (insert_roots s.root_sources roots) raw (ground arith))
    | inl own ↦ elim (Bool-cases (any (λ h. h == content_hash p s.content) seen)) [
      | inl again ↦
          rw (own, again) (roots_from-copy rest seen roots raw (still_seen s rest seen again h))
      | inr new ↦
          rw (own, new)
            (roots_from-copy rest (content_hash p s.content ∷ seen) (insert_root s.id roots) raw
              (ground arith))
    ]
  ]

  -- A raw source that comes after one with its content, up to the normal form, adds no root.
  pub independent_roots-copy :
      (sources : List SourceMemory)
      → is_empty copy.root_sources ≡ true
      → any (λ s. same_content s) sources ≡ true
      → independent_roots p (sources ++ copy ∷ []) ≡ independent_roots p sources
  unfolding independent_roots
  independent_roots-copy sources raw h = roots_from-copy sources [] [] raw h
