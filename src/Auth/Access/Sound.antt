-- ===== src/Auth/Access/Sound.antt =====
-- Requests and credentials: `authenticate` with the extractor `Caller`.
use surreal_memory_server.Common.{
  String, ◌≡◌, refl, ap, ◌∙◌, Bool, true, false, Option, none, some, is_some, ◌&&◌, not,
  if◌then◌else◌, Bool-cases, inl, inr,
}
use surreal_memory_server.Auth.{Principal}
use surreal_memory_server.Auth.Access.{
  Request, proceed, forbidden, jwt, authenticate, is_public, bearer_token, verify_token, verified,
  scoped, allowed_for_user_scope, caller,
}

-- Under JWT access, a principal that a handler sees is the one of a bearer token that was verified,
-- and if it is restricted to a user, the path is one of those that honour the restriction.
pub authenticate-verified :
    (verify : String → Option Principal) (r : Request) (p : Principal)
    → caller (authenticate (jwt verify) r) ≡ some p
    → ((token : String) × (bearer_token r.authorization ≡ some token) × (verify token ≡ some p))
      × ((is_some p.user_scope && not (allowed_for_user_scope r.path)) ≡ false)
unfolding authenticate caller verify_token verified scoped
authenticate-verified verify r p h = elim (Bool-cases (is_public r.path)) [
  | inl e ↦ let clash : none ≡ some p = rw e at h in cc (clash)
  | inr e ↦ by_token (bearer_token r.authorization) refl (rw e at h)
]
  where
    by_scope :
        (token : String) (q : Principal) (b : Bool)
        → bearer_token r.authorization ≡ some token
        → verify token ≡ some q
        → (is_some q.user_scope && not (allowed_for_user_scope r.path)) ≡ b
        → caller (if b then forbidden else proceed (some q)) ≡ some p
        → ((token : String) × (bearer_token r.authorization ≡ some token) × (verify token ≡ some p))
          × ((is_some p.user_scope && not (allowed_for_user_scope r.path)) ≡ false)
    by_scope token q true t v b k = cc (k)
    by_scope token q false t v b k =
        let same : q ≡ p = cc (k) in ((token, t, v ∙ ap some same), rw (← same) b)

    by_principal :
        (token : String) (q : Option Principal)
        → bearer_token r.authorization ≡ some token
        → verify token ≡ q
        → caller (verified r.path q) ≡ some p
        → ((token : String) × (bearer_token r.authorization ≡ some token) × (verify token ≡ some p))
          × ((is_some p.user_scope && not (allowed_for_user_scope r.path)) ≡ false)
    by_principal token none t v k = cc (k)
    by_principal token (some q) t v k = by_scope token q _ t v refl k

    by_token :
        (token : Option String)
        → bearer_token r.authorization ≡ token
        → caller (verify_token verify r.path token) ≡ some p
        → ((token : String) × (bearer_token r.authorization ≡ some token) × (verify token ≡ some p))
          × ((is_some p.user_scope && not (allowed_for_user_scope r.path)) ≡ false)
    by_token none t k = cc (k)
    by_token (some token) t k = by_principal token (verify token) t refl k
