-- ===== src/Common/Lists.antt =====
-- Lists over the native numbers.
use Prim.Native.Nat.{ℕ, zero, suc}
use mathlib.Core.Bool.{Bool, true, false, ◌&&◌, ◌||◌}
use mathlib.Core.Option.{Option, none, some}
use mathlib.Core.List.{List, [], ◌∷◌}
use surreal_memory_server.Common.Tests.{if◌then◌else◌, Bool-cases}
use mathlib.Core.Path.{◌≡◌}
use mathlib.Core.Logic.{◌⊎◌, inl, inr}

module _ {ℓ} {A : Type ℓ} where
  abbrev pub length : List A → ℕ
  length [] = 0
  length (x ∷ xs) = suc (length xs)

  abbrev pub take : ℕ → List A → List A
  take zero xs = []
  take (suc n) [] = []
  take (suc n) (x ∷ xs) = x ∷ take n xs

  -- `any` and `all` of an iterator.
  abbrev pub any : (A → Bool) → List A → Bool
  any p [] = false
  any p (x ∷ xs) = p x || any p xs

  abbrev pub all : (A → Bool) → List A → Bool
  all p [] = true
  all p (x ∷ xs) = p x && all p xs

  abbrev pub get_elem? : ℕ → List A → Option A
  get_elem? n [] = none
  get_elem? zero (x ∷ xs) = some x
  get_elem? (suc n) (x ∷ xs) = get_elem? n xs

  -- The elements that pass a Boolean test.
  abbrev pub keep : (A → Bool) → List A → List A
  keep p [] = []
  keep p (x ∷ xs) = let rest = keep p xs in if p x then x ∷ rest else rest

  abbrev pub is_some : Option A → Bool
  is_some none = false
  is_some (some a) = true

  abbrev pub is_empty : List A → Bool
  is_empty [] = true
  is_empty (x ∷ xs) = false

abbrev pub All {ℓ κ} : {A : Type ℓ} → (A → Type κ) → List A → Type κ
All P [] = Unit
All P (x ∷ xs) = P x × All P xs

pub All-map {ℓ} :
    {A : Type ℓ} {P Q : A → Type 0} (rows : List A)
    → ((s : A) → P s → Q s)
    → All P rows
    → All Q rows
All-map [] f hs = tt
All-map (s ∷ rows) f (h, hs) = (f s h, All-map rows f hs)

module _ {ℓ} {A : Type ℓ} (q : A → Bool) where
  pub keep-holds : (rows : List A) → All (λ s. q s ≡ true) (keep q rows)
  keep-holds [] = tt
  keep-holds (s ∷ rows) = elim (Bool-cases (q s)) [
    | inl holds ↦ rw holds (holds, keep-holds rows)
    | inr fails ↦ rw fails (keep-holds rows)
  ]

  pub keep-All : (P : A → Type 0) (rows : List A) → All P rows → All P (keep q rows)
  keep-All P [] hs = tt
  keep-All P (s ∷ rows) (h, hs) = elim (Bool-cases (q s)) [
    | inl holds ↦ rw holds (h, keep-All P rows hs)
    | inr fails ↦ rw fails (keep-All P rows hs)
  ]

  pub All-keep :
      (P : A → Type 0) (rows : List A) → All P (keep q rows) → All (λ s. (q s ≡ false) ⊎ P s) rows
  All-keep P [] hs = tt
  All-keep P (s ∷ rows) hs = elim (Bool-cases (q s)) [
    | inl holds ↦
        let parts : P s × All P (keep q rows) = rw holds at hs in
        (inr parts.0, All-keep P rows parts.1)
    | inr fails ↦ (inl fails, All-keep P rows (rw fails at hs))
  ]
