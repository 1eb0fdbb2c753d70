-- ===== src/Common/Sort.antt =====
-- `sort`, `sort_by_key` and `dedup` of a vector. The order on texts is that of their code points,
-- which is the order of their UTF-8 bytes.
use Prim.Native.Nat.{Ordering}
use Prim.Native.String.{String, compare}
use mathlib.Core.Path.{◌≡◌, refl}
use mathlib.Core.Bool.{Bool, true, false}
use mathlib.Core.List.{List, [], ◌∷◌}
use text.Mathlib.Text.{◌==◌}
use native.Mathlib.Omega.{arith}
use surreal_memory_server.Common.Tests.{if◌then◌else◌, Bool-cases}
use surreal_memory_server.Common.Lists.{All}
use mathlib.Core.Logic.{inl, inr}

module _ {ℓ} {A : Type ℓ} (before : A → A → Bool) where
  unfoldable pub insert_sorted : A → List A → List A
  insert_sorted x [] = x ∷ []
  insert_sorted x (y ∷ ys) = if before x y then x ∷ y ∷ ys else y ∷ insert_sorted x ys

  -- A stable sort, if `before` is reflexive.
  unfoldable pub sort_by : List A → List A
  unfolding insert_sorted
  sort_by [] = []
  sort_by (x ∷ xs) = insert_sorted x (sort_by xs)

abbrev pub text_le : String → String → Bool
text_le s t = elim (compare s t) [ Ordering.gt ↦ false | _ ↦ true ]

unfoldable pub sort : List String → List String
unfolding sort_by
sort = sort_by text_le

-- `dedup` keeps the first of each run of equal elements.
unfoldable pub dedup : List String → List String
dedup [] = []
dedup (x ∷ []) = x ∷ []
dedup (x ∷ y ∷ ys) = let rest = dedup (y ∷ ys) in if x == y then rest else x ∷ rest

insert_sorted-ne-nil {ℓ} :
    {A : Type ℓ} (before : A → A → Bool) (x : A) (ys : List A) → insert_sorted before x ys ≡ [] → ⊥
unfolding insert_sorted
insert_sorted-ne-nil before x [] h = ground arith
insert_sorted-ne-nil before x (y ∷ ys) h = ground arith

pub sort-eq-nil : (xs : List String) → sort xs ≡ [] → xs ≡ []
unfolding sort
sort-eq-nil [] h = refl
sort-eq-nil (x ∷ xs) h = absurd (insert_sorted-ne-nil text_le x (sort_by text_le xs) h)

pub dedup-eq-nil : (xs : List String) → dedup xs ≡ [] → xs ≡ []
unfolding dedup
dedup-eq-nil [] h = refl
dedup-eq-nil (x ∷ []) h = ground arith
dedup-eq-nil (x ∷ y ∷ ys) h = ground (arith, dedup-eq-nil (y ∷ ys))

-- What holds of all elements holds of all when they are sorted, and the other way round.
module _ {ℓ κ} {A : Type ℓ} (P : A → Type κ) where
  pub All-insert_sorted :
      (before : A → A → Bool) (x : A) (rows : List A)
      → All P (insert_sorted before x rows)
      → P x × All P rows
  unfolding insert_sorted
  All-insert_sorted before x [] (h, all) = (h, tt)
  All-insert_sorted before x (r ∷ rest) all = elim (Bool-cases (before x r)) [
    | inl holds ↦ rw holds at all
    | inr fails ↦
        let parts : P r × All P (insert_sorted before x rest) = rw fails at all in
        let (h, more) = All-insert_sorted before x rest parts.1 in (h, (parts.0, more))
  ]

  pub All-sort_by :
      (before : A → A → Bool) (rows : List A) → All P (sort_by before rows) → All P rows
  unfolding sort_by
  All-sort_by before [] all = tt
  All-sort_by before (x ∷ rows) all =
      let (h, more) = All-insert_sorted before x _ all in (h, All-sort_by before rows more)

module _ {ℓ κ} {A : Type ℓ} (P : A → Type κ) where
  pub insert_sorted-All :
      (before : A → A → Bool) (x : A) (rows : List A)
      → P x
      → All P rows
      → All P (insert_sorted before x rows)
  unfolding insert_sorted
  insert_sorted-All before x [] h all = (h, tt)
  insert_sorted-All before x (r ∷ rest) h (first, all) = elim (Bool-cases (before x r)) [
    | inl holds ↦ rw holds (h, (first, all))
    | inr fails ↦ rw fails (first, insert_sorted-All before x rest h all)
  ]

  pub sort_by-All :
      (before : A → A → Bool) (rows : List A) → All P rows → All P (sort_by before rows)
  unfolding sort_by
  sort_by-All before [] all = tt
  sort_by-All before (x ∷ rows) (h, all) =
      insert_sorted-All before x _ h (sort_by-All before rows all)
