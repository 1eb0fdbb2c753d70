-- ===== src/Ledger/Aggregate.antt =====
-- `aggregate_embeddings` of src/operations.rs, over the operations of `f32`.
pub mod Dimension
use surreal_memory_server.Common.{
  ℕ, zero, suc, ◌≡◌, refl, Bool, true, false, Option, none, some, List, [], ◌∷◌, map, eqb, length,
  not, arith, if◌then◌else◌,
}
use surreal_memory_server.Ledger.Types.{Part, other}
use surreal_memory_server.Ledger.Monad.{Result, ok, err}

-- What the code uses of `f32`.
pub record Floats (F : Type 0) : Type 0 where
  pub zero_f : F
  pub add : F → F → F
  pub div : F → F → F
  pub mul : F → F → F
  pub sqrt : F → F
  pub of_usize : ℕ → F
  pub positive : F → Bool

module _ {F : Type 0} (f : Floats F) where
  -- `vec![0.0; n]`.
  unfoldable pub zeros : ℕ → List F
  zeros zero = []
  zeros (suc n) = f.zero_f ∷ zeros n

  -- `for (target, value) in aggregate.iter_mut().zip(embedding) { *target += value; }`
  unfoldable pub add_into : List F → List F → List F
  add_into [] vs = []
  add_into (t ∷ ts) [] = t ∷ ts
  add_into (t ∷ ts) (v ∷ vs) = f.add t v ∷ add_into ts vs

  unfoldable pub sum_parts : ℕ → List F → List (Part F) → Result (List F)
  unfolding add_into
  sum_parts n acc [] = ok acc
  sum_parts n acc (p ∷ ps) = elim p.embedding [
    | none ↦ err (other "cannot aggregate an unindexed part")
    | some v ↦
        if not (eqb (length v) n)
        then err (other "embedding part dimensions do not match")
        else sum_parts n (add_into acc v) ps
  ]

  -- The sum of the squares, from the left.
  unfoldable pub sum_squares : F → List F → F
  sum_squares acc [] = acc
  sum_squares acc (v ∷ vs) = sum_squares (f.add acc (f.mul v v)) vs

  unfoldable pub normalize : List F → List F
  unfolding sum_squares
  normalize vs =
      let norm = f.sqrt (sum_squares f.zero_f vs) in
      if f.positive norm then map (λ v. f.div v norm) vs else vs

  unfoldable pub finish_mean : ℕ → Result (List F) → Result (List F)
  unfolding normalize
  finish_mean n (err e) = err e
  finish_mean n (ok sums) = ok (normalize (map (λ v. f.div v (f.of_usize n)) sums))

  unfoldable pub first_dimension : List (Part F) → Option ℕ
  first_dimension [] = none
  first_dimension (p ∷ ps) = elim p.embedding [ none ↦ none | some v ↦ some (length v) ]

  unfoldable pub aggregate_from : Option ℕ → List (Part F) → Result (List F)
  unfolding sum_parts finish_mean zeros
  aggregate_from none parts = err (other "cannot aggregate an empty embedding plan")
  aggregate_from (some n) parts = finish_mean (length parts) (sum_parts n (zeros n) parts)

  unfoldable pub aggregate_embeddings : List (Part F) → Result (List F)
  unfolding first_dimension aggregate_from
  aggregate_embeddings parts = aggregate_from (first_dimension parts) parts
