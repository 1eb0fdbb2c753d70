-- ===== src/Auth/Access.antt =====
-- The authenticating middleware of src/auth/access.rs. A request is its path and its
-- `Authorization` header, if that is there and printable; the JWT verifier is a parameter.
pub mod Sound
pub mod Paths
pub mod Verdicts
use surreal_memory_server.Common.{
  ℕ, zero, suc, String, Bool, true, false, Option, none, some, List, [], ◌∷◌, any, is_some, ◌==◌,
  ◌&&◌, ◌||◌, not, leb, eqb, if◌then◌else◌, ◌+◌, ◌*◌,
}
use surreal_memory_server.Common.Text.{count, trim}
use surreal_memory_server.Auth.{Principal, local}
use Prim.Native.Char.{code}

pub record Request : Type 0 where
  pub path : String
  pub authorization : Option String

abbrev pub public_paths : List String
public_paths = "/health" ∷ "/ready" ∷ []

abbrev pub user_scoped_prefixes : List String
user_scoped_prefixes = "/api/v1/memory" ∷ "/api/v1/search" ∷ []

-- What is left behind a prefix.
unfoldable pub strip_prefix : String → String → Option String
strip_prefix String.[] s = some s
strip_prefix (String.◌∷◌ p ps) String.[] = none
strip_prefix (String.◌∷◌ p ps) (String.◌∷◌ c s) =
    let rest = strip_prefix ps s in if eqb (code c) (code p) then rest else none

abbrev pub under_slash : Option String → Bool
under_slash none = false
under_slash (some rest) = is_some (strip_prefix "/" rest)

unfoldable pub is_public : String → Bool
is_public path = any (λ p. p == path) public_paths

unfoldable pub allowed_for_user_scope : String → Bool
unfolding strip_prefix
allowed_for_user_scope path =
    any (λ prefix. path == prefix || under_slash (strip_prefix prefix path)) user_scoped_prefixes

-- `split_once(' ')`, as the part before the space and, if there is a space, the part behind it.
unfoldable pub before_space : String → String
before_space String.[] = String.[]
before_space (String.◌∷◌ c s) =
    let rest = before_space s in if eqb (code c) 32 then String.[] else String.◌∷◌ c rest

unfoldable pub behind_space : String → Option String
behind_space String.[] = none
behind_space (String.◌∷◌ c s) =
    let rest = behind_space s in if eqb (code c) 32 then some s else rest

abbrev pub ascii_lower : ℕ → ℕ
ascii_lower c = if leb 65 c && leb c 90 then c + 32 else c

unfoldable pub eq_ignore_ascii_case : String → String → Bool
eq_ignore_ascii_case String.[] String.[] = true
eq_ignore_ascii_case String.[] (String.◌∷◌ d t) = false
eq_ignore_ascii_case (String.◌∷◌ c s) String.[] = false
eq_ignore_ascii_case (String.◌∷◌ c s) (String.◌∷◌ d t) =
    eqb (ascii_lower (code c)) (ascii_lower (code d)) && eq_ignore_ascii_case s t

abbrev pub max_token_bytes : ℕ
max_token_bytes = 8 * 1024

-- The header is printable ASCII, so its bytes are its characters.
unfoldable pub token_of : String → Option String → Option String
unfolding eq_ignore_ascii_case
token_of scheme none = none
token_of scheme (some token) =
    if eq_ignore_ascii_case scheme "bearer"
      && not (token == "")
      && leb (count token) max_token_bytes
    then some (trim token)
    else none

unfoldable pub bearer_token : Option String → Option String
unfolding token_of before_space behind_space
bearer_token none = none
bearer_token (some value) = token_of (before_space value) (behind_space value)

-- What the middleware does: it lets the request through, with the principal that handlers see if
-- there is one, or answers 401 or 403.
pub data Verdict : Type 0 where
  proceed : Option Principal → Verdict
  unauthorized forbidden : Verdict

-- A verifier makes a principal of a token, or refuses it.
pub data Access : Type 0 where
  local_access : Access
  jwt : (String → Option Principal) → Access

unfoldable pub scoped : String → Principal → Verdict
unfolding allowed_for_user_scope
scoped path p =
    if is_some p.user_scope && not (allowed_for_user_scope path)
    then forbidden
    else proceed (some p)

unfoldable pub verified : String → Option Principal → Verdict
unfolding scoped
verified path none = unauthorized
verified path (some p) = scoped path p

unfoldable pub verify_token : (String → Option Principal) → String → Option String → Verdict
unfolding verified
verify_token verify path none = unauthorized
verify_token verify path (some token) = verified path (verify token)

unfoldable pub authenticate : Access → Request → Verdict
unfolding is_public bearer_token verify_token
authenticate local_access r = proceed (some local)
authenticate (jwt verify) r =
    if is_public r.path
    then proceed none
    else verify_token verify r.path (bearer_token r.authorization)

-- The extractor `Caller`: `none` is its answer 401.
unfoldable pub caller : Verdict → Option Principal
caller (proceed p) = p
caller unauthorized = none
caller forbidden = none
