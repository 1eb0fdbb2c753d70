-- ===== src/Auth/Examples.antt =====
-- The theorems on verified callers at concrete inputs.
use surreal_memory_server.Common.{
  ◌≢◌, ◌↔◌, ◌⊎◌, String, ◌≡◌, refl, true, false, Option, none, some, ◌==◌, ◌&&◌, not, if◌then◌else◌,
}
use surreal_memory_server.Common.Text.{count, trim, trim_start, trim_end, is_blank, is_whitespace}
use surreal_memory_server.Auth.{Principal, effective_user, may_access}
use surreal_memory_server.Auth.Scope.{AsAsked, AsOwn, effective_user-may_access}
use surreal_memory_server.Auth.Access.{
  Request, proceed, forbidden, unauthorized, jwt, authenticate, caller, scoped, verified,
  verify_token, bearer_token, token_of, before_space, behind_space, eq_ignore_ascii_case, is_public,
  allowed_for_user_scope, strip_prefix,
}
use surreal_memory_server.Auth.Access.Sound.{authenticate-verified}
use surreal_memory_server.Auth.Access.Verdicts.{IsBearer, authenticate_iff}
use surreal_memory_server.Auth.Access.Paths.{IsOpen, IsUserPath}

abbrev ann : Principal
ann = record { tenant = "acme"; subject = "ann"; operator = false; user_scope = some "ann" }

effective_user-may_access_example :
    (AsAsked (some "ann") none (some "ann") × (may_access (some "ann") (some "bob") ≡ true))
    ⊎ (((own : String) × AsOwn own (some "ann") none (some "ann"))
        × ((may_access (some "ann") (some "bob") ≡ true)
            ↔ (◌≡◌ {A = Option String} (some "bob") (some "ann"))))
unfolding effective_user
effective_user-may_access_example =
    effective_user-may_access ann none (some "ann") (some "bob") refl

abbrev acme : String
acme = "acme_1"

abbrev verify : String → Option Principal
verify token = if token == "secret" then some ann else none

abbrev with_token : Request
with_token = record { path = "/api/v1/memory/7"; authorization = some "bearer secret" }

authenticate-verified_example :
    ((token : String) × (bearer_token (some "bearer secret") ≡ some token)
      × (verify token ≡ some ann))
    × ((true && not (allowed_for_user_scope "/api/v1/memory/7")) ≡ false)
unfolding authenticate caller scoped verified verify_token bearer_token token_of before_space
    behind_space eq_ignore_ascii_case is_public allowed_for_user_scope strip_prefix count trim
    trim_start trim_end is_blank is_whitespace
authenticate-verified_example = authenticate-verified verify with_token ann refl

abbrev without_token : Request
without_token = record { path = "/api/v1/operations"; authorization = none }

authenticate_iff_example :
    ((authenticate (jwt verify) without_token ≡ proceed none) ↔ IsOpen "/api/v1/operations")
    × ((authenticate (jwt verify) without_token ≡ unauthorized)
        ↔ (¬ IsOpen "/api/v1/operations" × ¬ ((p : Principal) × IsBearer verify without_token p)))
    × ((authenticate (jwt verify) without_token ≡ forbidden) ↔ (
        ¬ IsOpen "/api/v1/operations"
        × ((p : Principal) × IsBearer verify without_token p
            × (p.user_scope ≢ none)
            × ¬ IsUserPath "/api/v1/operations")))
authenticate_iff_example = authenticate_iff verify without_token
