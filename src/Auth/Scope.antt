-- ===== src/Auth/Scope.antt =====
-- User restrictions and tenant ids of src/auth/mod.rs.
use surreal_memory_server.Common.{
  ◌≤◌, ◌≡◌, refl, true, Option, none, some, ◌==◌, leb, leb→le, eq_iff, Bool-cases, inl, inr, arith,
  ◌≢◌, ◌↔◌, ◌⊎◌, sym, ap, subst, String,
}
use surreal_memory_server.Common.Text.{count}
use surreal_memory_server.Auth.{Principal, parse, all_tenant_chars, effective_user, may_access}

-- What a restriction says: the records of just the owner it names.
own_records :
    (own : String) (owner : Option String)
    → (may_access (some own) owner ≡ true) ↔ (owner ≡ some own)
unfolding may_access
own_records own none = (λ h. cc (h), λ h. cc (h))
own_records own (some other) = (
  λ h. ap some ((eq_iff other own).0 h),
  λ h. let same : other ≡ own = cc (h) in (eq_iff other own).1 same,
)

-- A request without a restriction acts on the user that it names.
abbrev pub AsAsked : Option String → Option String → Option String → Type 0
AsAsked scope requested user = (scope ≡ none) × (user ≡ requested)

-- A restricted one names that user or no one, and acts on the user of the restriction.
abbrev pub AsOwn : String → Option String → Option String → Option String → Type 0
AsOwn own scope requested user =
    (scope ≡ some own) × (user ≡ some own) × ((requested ≡ none) ⊎ (requested ≡ some own))

-- Where `effective_user` names the user that a request acts on, or leaves it open, one of two holds.
-- The principal is not restricted, acts as it asked, and may access every owner's records. Or it is
-- restricted to that user, asked for that user or for no one, and may access the records of an owner
-- exactly if the owner is that user.
pub effective_user-may_access :
    (p : Principal) (requested user owner : Option String)
    → effective_user p.user_scope requested ≡ some user
    → (AsAsked p.user_scope requested user × (may_access p.user_scope owner ≡ true))
      ⊎ (((own : String) × AsOwn own p.user_scope requested user)
          × ((may_access p.user_scope owner ≡ true) ↔ (owner ≡ user)))
unfolding effective_user may_access
effective_user-may_access p requested user owner h = go p.user_scope requested h
  where
    go :
        (scope asked : Option String)
        → effective_user scope asked ≡ some user
        → (AsAsked scope asked user × (may_access scope owner ≡ true))
          ⊎ (((own : String) × AsOwn own scope asked user)
              × ((may_access scope owner ≡ true) ↔ (owner ≡ user)))
    go none asked h = inl ((refl, cc (h)), refl)
    go (some own) none h =
        let same : some own ≡ user = cc (h) in
        inr (
          (own, (refl, sym same, inl refl)),
          subst (λ u. (may_access (some own) owner ≡ true) ↔ (owner ≡ u)) same
              (own_records own owner),
        )
    go (some own) (some asked) h = elim (Bool-cases (asked == own)) [
      | inl e ↦
          let answer : some (some own) ≡ some user = rw e at h in
          let same : some own ≡ user = cc (answer) in
          inr (
            (own, (refl, sym same, inr (ap some ((eq_iff asked own).0 e)))),
            subst (λ u. (may_access (some own) owner ≡ true) ↔ (owner ≡ u)) same
                (own_records own owner),
          )
      | inr e ↦ let clash : none ≡ some user = rw e at h in cc (clash)
    ]

-- A tenant id that is accepted is the text that was given: one to 48 characters, each a lower-case
-- letter, a digit or an underscore.
pub parse-accepted :
    (raw id : String)
    → parse raw ≡ some id
    → (id ≡ raw) × (raw ≢ "") × (count raw ≤ 48) × (all_tenant_chars raw ≡ true)
unfolding parse
parse-accepted raw id h = elim (Bool-cases (raw == "")) [
  | inl e ↦ let clash : none ≡ some id = rw e at h in cc (clash)
  | inr e ↦ elim (Bool-cases (leb (count raw) 48)) [
    | inr l ↦ let clash : none ≡ some id = rw (e, l) at h in cc (clash)
    | inl l ↦ elim (Bool-cases (all_tenant_chars raw)) [
      | inr a ↦ let clash : none ≡ some id = rw (e, l, a) at h in cc (clash)
      | inl a ↦
          let same : some raw ≡ some id = rw (e, l, a) at h in
          (
            cc (same),
            λ blank. absurd (ground (arith, e, eq_iff raw "", blank)),
            leb→le (count raw) 48 l,
            a,
          )
    ]
  ]
]
