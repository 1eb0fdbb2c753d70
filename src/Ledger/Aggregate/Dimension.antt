-- ===== src/Ledger/Aggregate/Dimension.antt =====
-- The dimension of an aggregated embedding.
use surreal_memory_server.Common.{
  ℕ, zero, suc, ◌≡◌, refl, Option, none, some, List, [], ◌∷◌, map, eqb, eqb_iff, length, All, arith,
  Bool-cases, inl, inr, ap, ◌∙◌, sym, subst, ◌≤◌,
}
use surreal_memory_server.Ledger.Types.{Part, other}
use surreal_memory_server.Ledger.Monad.{Result, ok, err}
use surreal_memory_server.Ledger.Aggregate.{
  Floats, zeros, add_into, sum_parts, sum_squares, normalize, finish_mean, first_dimension,
  aggregate_from, aggregate_embeddings,
}

module _ {F : Type 0} where
  -- The part has an embedding of `n` numbers.
  abbrev pub HasDimension : ℕ → Part F → Type 0
  HasDimension n p = (v : List F) × (p.embedding ≡ some v) × (length v ≡ n)

module _ {F : Type 0} (f : Floats F) where
  length-zeros : (n : ℕ) → length (zeros f n) ≡ n
  unfolding zeros
  length-zeros zero = refl
  length-zeros (suc n) = ap suc (length-zeros n)

  length-add_into : (ts vs : List F) → length (add_into f ts vs) ≡ length ts
  unfolding add_into
  length-add_into [] vs = refl
  length-add_into (t ∷ ts) [] = refl
  length-add_into (t ∷ ts) (v ∷ vs) = ap suc (length-add_into ts vs)

  length-map : (g : F → F) (vs : List F) → length (map g vs) ≡ length vs
  length-map g [] = refl
  length-map g (v ∷ vs) = ap suc (length-map g vs)

  length-normalize : (vs : List F) → length (normalize f vs) ≡ length vs
  unfolding normalize
  length-normalize vs = elim (Bool-cases (f.positive (f.sqrt (sum_squares f f.zero_f vs)))) [
    | inl e ↦ rw e (length-map _ vs)
    | inr e ↦ rw e refl
  ]

  sums-HasDimension :
      (n : ℕ) (acc sums : List F) (ps : List (Part F))
      → length acc ≡ n
      → sum_parts f n acc ps ≡ ok sums
      → (length sums ≡ n) × All (HasDimension n) ps
  unfolding sum_parts
  sums-HasDimension n acc sums [] l h = let same : acc ≡ sums = cc (h) in (rw (← same) l, tt)
  sums-HasDimension n acc sums (p ∷ ps) l h =
      go p.embedding refl
        (λ v same k. sums-HasDimension n (add_into f acc v) sums ps (length-add_into acc v ∙ l) k)
    where
      go :
          (e : Option (List F))
          → p.embedding ≡ e
          → ((v : List F)
              → length v ≡ n
              → sum_parts f n (add_into f acc v) ps ≡ ok sums
              → (length sums ≡ n) × All (HasDimension n) ps)
          → (length sums ≡ n) × (HasDimension n p × All (HasDimension n) ps)
      go none e k =
          let clash : err (other "cannot aggregate an unindexed part") ≡ ok sums = rw e at h in
          cc (clash)
      go (some v) e k = elim (Bool-cases (eqb (length v) n)) [
        | inl m ↦
            let size = (eqb_iff (length v) n).0 m in
            let rest = k v size (rw (e, m) at h) in (rest.0, ((v, e, size), rest.1))
        | inr m ↦
            let clash : err (other "embedding part dimensions do not match") ≡ ok sums =
              rw (e, m) at h in
            cc (clash)
      ]

  dimension-nonempty : (n : ℕ) (ps : List (Part F)) → first_dimension f ps ≡ some n → 1 ≤ length ps
  unfolding first_dimension
  dimension-nonempty n [] h = cc (h)
  dimension-nonempty n (p ∷ ps) h = omega arith

  from_sums :
      (n : ℕ) (v : List F) (ps : List (Part F)) (sums : Result (List F))
      → sum_parts f n (zeros f n) ps ≡ sums
      → finish_mean f (length ps) sums ≡ ok v
      → All (HasDimension (length v)) ps
  unfolding finish_mean
  from_sums n v ps (err e) s k = cc (k)
  from_sums n v ps (ok sums) s k =
      let parts = sums-HasDimension n (zeros f n) sums ps (length-zeros n) s in
      let same : normalize f (map (λ x. f.div x (f.of_usize (length ps))) sums) ≡ v = cc (k) in
      let size : length v ≡ n =
        ap length (sym same) ∙ length-normalize _ ∙ length-map _ sums ∙ parts.0 in
      subst (λ m. All (HasDimension m) ps) (sym size) parts.1

  -- Aggregating succeeds only where every part has an embedding, all of the dimension of the
  -- result, and there is at least one part.
  pub aggregate_embeddings-HasDimension :
      (ps : List (Part F)) (v : List F)
      → aggregate_embeddings f ps ≡ ok v
      → (1 ≤ length ps) × All (HasDimension (length v)) ps
  unfolding aggregate_embeddings aggregate_from
  aggregate_embeddings-HasDimension ps v h = go (first_dimension f ps) refl h
    where
      go :
          (d : Option ℕ)
          → first_dimension f ps ≡ d
          → aggregate_from f d ps ≡ ok v
          → (1 ≤ length ps) × All (HasDimension (length v)) ps
      go none e k = cc (k)
      go (some n) e k = (dimension-nonempty n ps e, from_sums n v ps _ refl k)
