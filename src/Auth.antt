-- ===== src/Auth.antt =====
-- The verified caller of a request: `TenantId` and `Principal` of src/auth/mod.rs.
mod Examples
pub mod Scope
pub mod Access
use surreal_memory_server.Common.{
  ℕ, String, Bool, true, false, Option, none, some, ◌==◌, ◌&&◌, ◌||◌, not, leb, eqb, if◌then◌else◌,
}
use surreal_memory_server.Common.Text.{count}
use Prim.Native.Char.{code}

-- `is_ascii_lowercase`, `is_ascii_digit` or an underscore.
abbrev pub is_tenant_char : ℕ → Bool
is_tenant_char c = (leb 97 c && leb c 122) || (leb 48 c && leb c 57) || eqb c 95

unfoldable pub all_tenant_chars : String → Bool
all_tenant_chars String.[] = true
all_tenant_chars (String.◌∷◌ c s) = is_tenant_char (code c) && all_tenant_chars s

-- `TenantId::parse`; `none` is the error. `raw.len()` counts bytes, which are the characters of a
-- text whose bytes are all ASCII.
unfoldable pub parse : String → Option String
unfolding all_tenant_chars count
parse raw = if not (raw == "") && leb (count raw) 48 && all_tenant_chars raw then some raw else none

pub record Principal : Type 0 where
  pub tenant : String
  pub subject : String
  pub operator : Bool
  pub user_scope : Option String

-- `Principal::local`.
abbrev pub local : Principal
local = record { tenant = "local"; subject = "local"; operator = true; user_scope = none }

-- The outer option is the result, `none` for `ScopeError`.
unfoldable pub effective_user : Option String → Option String → Option (Option String)
effective_user none requested = some requested
effective_user (some own) none = some (some own)
effective_user (some own) (some asked) = if asked == own then some (some own) else none

unfoldable pub may_access : Option String → Option String → Bool
may_access none owner = true
may_access (some own) none = false
may_access (some own) (some other) = other == own
