-- ===== src/Ledger/Request/Valid.antt =====
-- The requests that pass `OperationRequest::validate`.
use surreal_memory_server.Common.{
  List, [], ◌∷◌, All, ◌↔◌, ◌⊎◌, ◌||◌, sym, ◌∙◌, eq_refl, String, ◌≡◌, refl, Bool, true, false,
  Option, none, some, ◌==◌, eq_iff, eqb, eqb_iff, not, any, if◌then◌else◌, Bool-cases, inl, inr, ap,
}
use surreal_memory_server.Common.Text.{is_blank, is_whitespace}
use Prim.Native.Char.{code}
use surreal_memory_server.Ledger.Types.{OperationRequest}
use surreal_memory_server.Ledger.Request.{hash_mismatch, known_kind, check_hash, validate}

-- A chain of checks without a failure went past each of them.
passed :
    {A : Type 0} (b : Bool) (x : A) (rest : Option A)
    → (if b then some x else rest) ≡ none
    → (b ≡ false) × (rest ≡ none)
passed true x rest h = cc
passed false x rest h = (refl, h)

passed_not :
    {A : Type 0} (b : Bool) (x : A) (rest : Option A)
    → (if not b then some x else rest) ≡ none
    → (b ≡ true) × (rest ≡ none)
passed_not true x rest h = (refl, h)
passed_not false x rest h = cc

hash_passed :
    (supplied : String) (actual : Option String)
    → check_hash supplied actual ≡ none
    → actual ≡ some supplied
unfolding check_hash
hash_passed supplied none h = cc
hash_passed supplied (some actual) h = elim (Bool-cases (actual == supplied)) [
  | inl e ↦ ap some ((eq_iff actual supplied).0 e)
  | inr e ↦ let clash : some (hash_mismatch supplied actual) ≡ none = rw e at h in cc (clash)
]

validate_sound :
    {V : Type 0} (payload_hash : V → Option String) (r : OperationRequest V)
    → validate payload_hash r ≡ none
    → (is_blank r.operation_id ≡ false)
      × (r.schema_version ≡ 2)
      × (known_kind r.kind ≡ true)
      × (any is_blank r.dependencies ≡ false)
      × (payload_hash r.payload ≡ some r.payload_hash)
unfolding validate
validate_sound payload_hash r h =
    let id = passed (is_blank r.operation_id) _ _ h in
    let schema = passed_not (eqb r.schema_version 2) _ _ id.1 in
    let kind = passed_not (known_kind r.kind) _ _ schema.1 in
    let dependencies = passed (any is_blank r.dependencies) _ _ kind.1 in
    (
      id.0,
      (eqb_iff r.schema_version 2).0 schema.0,
      kind.0,
      dependencies.0,
      hash_passed r.payload_hash (payload_hash r.payload) dependencies.1,
    )

-- A text with a character that is not white space.
abbrev pub HasText : String → Type 0
HasText String.[] = ⊥
HasText (String.◌∷◌ c s) = (is_whitespace (code c) ≡ false) ⊎ HasText s

is_blank_iff : (s : String) → (is_blank s ≡ false) ↔ HasText s
unfolding is_blank
is_blank_iff String.[] = (λ h. cc (h), λ h. absurd h)
is_blank_iff (String.◌∷◌ c s) = elim (Bool-cases (is_whitespace (code c))) [
  | inl white ↦ (
    λ h. inr ((is_blank_iff s).0 (rw white at h)),
    λ h. elim h [
      | inl visible ↦ let clash : true ≡ false = sym white ∙ visible in cc (clash)
      | inr rest ↦ rw white ((is_blank_iff s).1 rest)
    ],
  )
  | inr visible ↦ (λ h. inl visible, λ h. rw visible refl)
]

any_blank_iff : (ids : List String) → (any is_blank ids ≡ false) ↔ All HasText ids
any_blank_iff [] = (λ h. tt, λ h. refl)
any_blank_iff (id ∷ ids) = elim (Bool-cases (is_blank id)) [
  | inl blank ↦ (
    λ h. let clash : true ≡ false = rw blank at h in cc (clash),
    λ (first, rest). let clash : true ≡ false = sym blank ∙ (is_blank_iff id).1 first in cc (clash),
  )
  | inr visible ↦ (
    λ h. ((is_blank_iff id).0 visible, (any_blank_iff ids).0 (rw visible at h)),
    λ (first, rest). rw visible ((any_blank_iff ids).1 rest),
  )
]

-- The kinds of the source.
abbrev pub IsKind : String → Type 0
IsKind kind =
    ((((kind ≡ "add_memory") ⊎ (kind ≡ "create_task_stream")) ⊎ (kind ≡ "add_task_step"))
      ⊎ (kind ≡ "complete_step"))
    ⊎ (kind ≡ "rekey_agent_id")

or_named_iff :
    {P : Type 0} (kind name : String) (b : Bool)
    → ((b ≡ true) ↔ P)
    → ((b || kind == name) ≡ true) ↔ (P ⊎ (kind ≡ name))
or_named_iff kind name true first = (λ h. inl (first.0 refl), λ h. refl)
or_named_iff kind name false first = (
  λ h. inr ((eq_iff kind name).0 h),
  λ h. elim h [
    | inl earlier ↦ let clash : false ≡ true = first.1 earlier in cc (clash)
    | inr same ↦ (eq_iff kind name).1 same
  ],
)

known_kind_iff : (kind : String) → (known_kind kind ≡ true) ↔ IsKind kind
unfolding known_kind
known_kind_iff kind = or_named_iff kind "rekey_agent_id" _ (
    or_named_iff kind "complete_step" _ (
      or_named_iff kind "add_task_step" _
        (or_named_iff kind "create_task_stream" _ (eq_iff kind "add_memory"))))

-- A request passes `validate` exactly if its id has a character that is not white space, its schema
-- version is 2, its kind is one of the five, each of its dependencies has a character that is not
-- white space, and the hash that it carries is that of its payload.
pub validate_accepts_iff :
    {V : Type 0} (payload_hash : V → Option String) (r : OperationRequest V)
    → (validate payload_hash r ≡ none) ↔ (
        HasText r.operation_id
        × (r.schema_version ≡ 2)
        × IsKind r.kind
        × All HasText r.dependencies
        × (payload_hash r.payload ≡ some r.payload_hash))
unfolding validate check_hash
validate_accepts_iff payload_hash r = (
  λ h.
      let (id, schema, kind, dependencies, hash) = validate_sound payload_hash r h in
      (
        (is_blank_iff r.operation_id).0 id,
        schema,
        (known_kind_iff r.kind).0 kind,
        (any_blank_iff r.dependencies).0 dependencies,
        hash,
      ),
  λ (id, schema, kind, dependencies, hash).
      rw
        (
          (is_blank_iff r.operation_id).1 id,
          (eqb_iff r.schema_version 2).1 schema,
          (known_kind_iff r.kind).1 kind,
          (any_blank_iff r.dependencies).1 dependencies,
          hash,
          check_hash,
          eq_refl r.payload_hash,
        )
        refl,
)
