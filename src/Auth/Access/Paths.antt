-- ===== src/Auth/Access/Paths.antt =====
-- The paths that need no credential, and those for a principal that is restricted to a user.
use surreal_memory_server.Common.{
  String, ◌≡◌, ◌↔◌, ◌⊎◌, refl, ap, sym, ◌∙◌, Bool, true, false, Option, none, some, is_some, ◌||◌,
  Bool-cases, inl, inr, ◌==◌, eq_iff, eqb, eqb_iff,
}
use surreal_memory_server.Auth.Access.{is_public, allowed_for_user_scope, strip_prefix, under_slash}
use Prim.Native.Char.{code}
use text.Mathlib.TextEquality.{Char-path}

-- One text behind another.
abbrev pub joined : String → String → String
joined String.[] s = s
joined (String.◌∷◌ p ps) s = String.◌∷◌ p (joined ps s)

strip_joined : (prefix rest : String) → strip_prefix prefix (joined prefix rest) ≡ some rest
unfolding strip_prefix
strip_joined String.[] rest = refl
strip_joined (String.◌∷◌ p ps) rest = rw ((eqb_iff (code p) (code p)).1 refl) (strip_joined ps rest)

strip_some : (prefix s rest : String) → strip_prefix prefix s ≡ some rest → s ≡ joined prefix rest
unfolding strip_prefix
strip_some String.[] s rest h = cc (h)
strip_some (String.◌∷◌ p ps) String.[] rest h = cc (h)
strip_some (String.◌∷◌ p ps) (String.◌∷◌ c s) rest h = elim (Bool-cases (eqb (code c) (code p))) [
  | inl same ↦
      let first : c ≡ p = Char-path c p ((eqb_iff (code c) (code p)).0 same) in
      let behind : s ≡ joined ps rest = strip_some ps s rest (rw same at h) in
      rw (first, behind) refl
  | inr other ↦ let clash : none ≡ some rest = rw other at h in cc (clash)
]

-- A path that is a prefix, or goes on behind it with a slash.
abbrev pub AtOrBelow : String → String → Type 0
AtOrBelow prefix path =
    (path ≡ prefix) ⊎ ((rest : String) × (path ≡ joined prefix (joined "/" rest)))

below_iff :
    (prefix path : String)
    → (under_slash (strip_prefix prefix path) ≡ true)
      ↔ ((rest : String) × (path ≡ joined prefix (joined "/" rest)))
below_iff prefix path = (
  λ h. go (strip_prefix prefix path) refl h,
  λ (rest, same). rw (same, strip_joined prefix (joined "/" rest), strip_joined "/" rest) refl,
)
  where
    behind :
        (tail : String) (r : Option String)
        → strip_prefix prefix path ≡ some tail
        → strip_prefix "/" tail ≡ r
        → is_some r ≡ true
        → (rest : String) × (path ≡ joined prefix (joined "/" rest))
    behind tail none e f h = cc (h)
    behind tail (some rest) e f h = (
      rest,
      strip_some prefix path tail e ∙ ap (λ t. joined prefix t) (strip_some "/" tail rest f),
    )

    go :
        (r : Option String)
        → strip_prefix prefix path ≡ r
        → under_slash r ≡ true
        → (rest : String) × (path ≡ joined prefix (joined "/" rest))
    go none e h = cc (h)
    go (some tail) e h = behind tail _ e refl h

or_iff :
    {P Q : Type 0} (a b : Bool) → ((a ≡ true) ↔ P) → ((b ≡ true) ↔ Q) → ((a || b) ≡ true) ↔ (P ⊎ Q)
or_iff true b p q = (λ h. inl (p.0 refl), λ h. refl)
or_iff false b p q = (
  λ h. inr (q.0 h),
  λ h. elim h [
    | inl left ↦ let clash : false ≡ true = p.1 left in cc (clash)
    | inr right ↦ q.1 right
  ],
)

-- The paths that need no credential.
abbrev pub IsOpen : String → Type 0
IsOpen path = (path ≡ "/health") ⊎ (path ≡ "/ready")

-- The paths for a principal that is restricted to a user.
abbrev pub IsUserPath : String → Type 0
IsUserPath path = AtOrBelow "/api/v1/memory" path ⊎ AtOrBelow "/api/v1/search" path

or_false_iff : {P : Type 0} (b : Bool) → ((b ≡ true) ↔ P) → ((b || false) ≡ true) ↔ P
or_false_iff true p = p
or_false_iff false p = p

named_iff : (name path : String) → ((name == path) ≡ true) ↔ (path ≡ name)
named_iff name path = (λ h. sym ((eq_iff name path).0 h), λ h. (eq_iff name path).1 (sym h))

pub is_public_iff : (path : String) → (is_public path ≡ true) ↔ IsOpen path
unfolding is_public
is_public_iff path =
    or_iff _ _ (named_iff "/health" path) (or_false_iff _ (named_iff "/ready" path))

path_iff :
    (prefix path : String)
    → ((path == prefix || under_slash (strip_prefix prefix path)) ≡ true) ↔ AtOrBelow prefix path
path_iff prefix path = or_iff _ _ (eq_iff path prefix) (below_iff prefix path)

pub allowed_iff : (path : String) → (allowed_for_user_scope path ≡ true) ↔ IsUserPath path
unfolding allowed_for_user_scope
allowed_iff path =
    or_iff _ _ (path_iff "/api/v1/memory" path) (or_false_iff _ (path_iff "/api/v1/search" path))
