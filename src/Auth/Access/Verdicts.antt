-- ===== src/Auth/Access/Verdicts.antt =====
-- Which requests the middleware lets through, answers 401 or answers 403, by their path and the token
-- that they bear.
use surreal_memory_server.Common.{
  String, ◌≡◌, ◌≢◌, ◌↔◌, refl, ap, sym, subst, ◌∙◌, Bool, true, false, Option, none, some, is_some,
  ◌&&◌, not, Bool-cases, inl, inr,
}
use surreal_memory_server.Auth.{Principal}
use surreal_memory_server.Auth.Access.{
  Request, proceed, unauthorized, forbidden, jwt, authenticate, is_public, bearer_token, Verdict,
  verify_token, verified, scoped, allowed_for_user_scope,
}
use surreal_memory_server.Auth.Access.Paths.{IsOpen, IsUserPath, is_public_iff, allowed_iff}

-- A request bears a token from which the verifier makes the principal.
abbrev pub IsBearer : (String → Option Principal) → Request → Principal → Type 0
IsBearer verify r p =
    (token : String) × (bearer_token r.authorization ≡ some token) × (verify token ≡ some p)

IsBearer-unique :
    (verify : String → Option Principal) (r : Request) (p q : Principal)
    → IsBearer verify r p
    → IsBearer verify r q
    → p ≡ q
IsBearer-unique verify r p q (token, at, made) (token', at', made') =
    let same : token ≡ token' = cc (at, at') in
    let one : some p ≡ some q = sym made ∙ ap verify same ∙ made' in cc (one)

abbrev IsRefusedPath : Request → Principal → Type 0
IsRefusedPath r p = (p.user_scope ≢ none) × ¬ IsUserPath r.path

-- When each of the three verdicts without a principal is given.
abbrev Describes : (String → Option Principal) → Request → Verdict → Type 0
Describes verify r v =
    ((v ≡ proceed none) ↔ IsOpen r.path)
    × ((v ≡ unauthorized) ↔ (¬ IsOpen r.path × ¬ ((p : Principal) × IsBearer verify r p)))
    × ((v ≡ forbidden) ↔ (
        ¬ IsOpen r.path
        × ((p : Principal) × IsBearer verify r p × (p.user_scope ≢ none) × ¬ IsUserPath r.path)))

module _ (verify : String → Option Principal) (r : Request) where
  open-Describes : IsOpen r.path → Describes verify r (proceed none)
  open-Describes free = (
    (λ h. free, λ h. refl),
    (λ h. cc (h), λ (closed, h). absurd (closed free)),
    (λ h. cc (h), λ (closed, h). absurd (closed free)),
  )

  unauthorized-Describes :
      ¬ IsOpen r.path → ¬ ((p : Principal) × IsBearer verify r p) → Describes verify r unauthorized
  unauthorized-Describes closed bare = (
    (λ h. cc (h), λ free. absurd (closed free)),
    (λ h. (closed, bare), λ h. refl),
    (λ h. cc (h), λ (c, (p, bears, scope, path)). absurd (bare (p, bears))),
  )

  forbidden-Describes :
      (p : Principal)
      → ¬ IsOpen r.path
      → IsBearer verify r p
      → IsRefusedPath r p
      → Describes verify r forbidden
  forbidden-Describes p closed bears (restricted, outside) = (
    (λ h. cc (h), λ free. absurd (closed free)),
    (λ h. cc (h), λ (c, bare). absurd (bare (p, bears))),
    (λ h. (closed, (p, bears, restricted, outside)), λ h. refl),
  )

  through-Describes :
      (p : Principal)
      → ¬ IsOpen r.path
      → IsBearer verify r p
      → ¬ IsRefusedPath r p
      → Describes verify r (proceed (some p))
  through-Describes p closed bears fine = (
    (λ h. let clash : some p ≡ none = cc (h) in cc (clash), λ free. absurd (closed free)),
    (λ h. cc (h), λ (c, bare). absurd (bare (p, bears))),
    (
      λ h. cc (h),
      λ (c, (q, bears', restricted, outside)). absurd (
          fine (
            subst (λ x. x.user_scope ≢ none) (IsBearer-unique verify r q p bears' bears) restricted,
            outside,
          )),
    ),
  )

  refused_path :
      (scope : Option String) (allowed : Bool)
      → ((allowed ≡ true) ↔ IsUserPath r.path)
      → (is_some scope && not allowed) ≡ true
      → (scope ≢ none) × ¬ IsUserPath r.path
  refused_path none allowed path h = cc (h)
  refused_path (some own) true path h = cc (h)
  refused_path (some own) false path h =
      (λ e. cc (e), λ user. let clash : false ≡ true = path.1 user in cc (clash))

  accepted_path :
      (scope : Option String) (allowed : Bool)
      → ((allowed ≡ true) ↔ IsUserPath r.path)
      → (is_some scope && not allowed) ≡ false
      → ¬ ((scope ≢ none) × ¬ IsUserPath r.path)
  accepted_path none allowed path h (restricted, outside) = restricted refl
  accepted_path (some own) true path h (restricted, outside) = outside (path.0 refl)
  accepted_path (some own) false path h both = cc (h)

  scoped-Describes :
      (p : Principal) → ¬ IsOpen r.path → IsBearer verify r p → Describes verify r (scoped r.path p)
  unfolding scoped
  scoped-Describes p closed bears =
      elim (Bool-cases (is_some p.user_scope && not (allowed_for_user_scope r.path))) [
        | inl refused ↦ rw refused (
            forbidden-Describes p closed bears
              (refused_path p.user_scope _ (allowed_iff r.path) refused))
        | inr fine ↦ rw fine (
            through-Describes p closed bears
              (accepted_path p.user_scope _ (allowed_iff r.path) fine))
      ]

  verified-Describes :
      (token : String) (q : Option Principal)
      → ¬ IsOpen r.path
      → bearer_token r.authorization ≡ some token
      → verify token ≡ q
      → Describes verify r (verified r.path q)
  unfolding verified
  verified-Describes token none closed at made =
      unauthorized-Describes closed (λ (p, (token', at', made')).
        let same : token ≡ token' = cc (at, at') in
        let clash : none ≡ some p = sym made ∙ ap verify same ∙ made' in cc (clash))
  verified-Describes token (some p) closed at made = scoped-Describes p closed (token, at, made)

  token-Describes :
      (t : Option String)
      → ¬ IsOpen r.path
      → bearer_token r.authorization ≡ t
      → Describes verify r (verify_token verify r.path t)
  unfolding verify_token
  token-Describes none closed at =
      unauthorized-Describes closed
        (λ (p, (token, at', made)). let clash : none ≡ some token = sym at ∙ at' in cc (clash))
  token-Describes (some token) closed at = verified-Describes token _ closed at refl

  -- Under JWT access a request goes on without a principal exactly if its path is `/health` or
  -- `/ready`. On any other path the answer is 401 exactly if it bears no token that the verifier
  -- accepts, and 403 exactly if it bears one, of a principal that is restricted to a user, and the
  -- path is neither `/api/v1/memory` nor `/api/v1/search` nor below one of them.
  pub authenticate_iff :
      ((authenticate (jwt verify) r ≡ proceed none) ↔ IsOpen r.path)
      × ((authenticate (jwt verify) r ≡ unauthorized)
          ↔ (¬ IsOpen r.path × ¬ ((p : Principal) × IsBearer verify r p)))
      × ((authenticate (jwt verify) r ≡ forbidden) ↔ (
          ¬ IsOpen r.path
          × ((p : Principal) × IsBearer verify r p × (p.user_scope ≢ none) × ¬ IsUserPath r.path)))
  unfolding authenticate
  authenticate_iff = elim (Bool-cases (is_public r.path)) [
    | inl public ↦ rw (public, authenticate) (open-Describes ((is_public_iff r.path).0 public))
    | inr private ↦
        let closed : ¬ IsOpen r.path = λ free.
          (let clash : true ≡ false = sym ((is_public_iff r.path).1 free) ∙ private in
            cc (clash)) in
        rw (private, authenticate) (token-Describes _ closed refl)
  ]
