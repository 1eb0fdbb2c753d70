-- ===== src/Ledger/Connection.antt =====
-- The ledger's connection and its replacement: `ledger_connection`, `replace_ledger_connection`,
-- `recover_ledger_connection`, `classify_ledger_error` and `await_database` of src/operations.rs.
pub mod Generations
use surreal_memory_server.Common.{
  ℕ, ◌+◌, ◌-◌, ◌^◌, Bool, true, false, Option, none, some, ◌||◌, not, eqb, ltb, if◌then◌else◌,
}
use surreal_memory_server.Ledger.Types.{Error, deadline_exceeded, connection_lost, other}
use surreal_memory_server.Ledger.Monad.{Result, ok, err}

-- The generation that is published, if one is, and whether another task is replacing it.
pub record Link : Type 0 where
  pub published : Option ℕ
  pub replacing : Bool

-- How the connector answers, within its deadline or not.
pub data Attempt : Type 0 where
  connected timed_out : Attempt
  failed : Error → Attempt

abbrev pub saturating_succ : ℕ → ℕ
saturating_succ n = if ltb n (2 ^ 64 - 1) then n + 1 else n

-- The two reads of `ledger_connection` see the same where nobody else runs between them. A first
-- connection is not under a deadline.
unfoldable pub connect_first : Attempt → Link → Result ℕ × Link
connect_first connected l = (ok 0, record l { published = some 0 })
connect_first timed_out l = (err (other "connect timed out"), l)
connect_first (failed e) l = (err e, l)

unfoldable pub ledger_connection : Attempt → Link → Result ℕ × Link
unfolding connect_first
ledger_connection a l = elim l.published [ some g ↦ (ok g, l) | none ↦ connect_first a l ]

-- `recover_ledger_connection` around `replace_ledger_connection`: whether a usable generation is
-- published. An error and a deadline both count as failed.
unfoldable pub connect_next : Attempt → ℕ → Link → Bool × Link
connect_next connected stale l = (true, record l { published = some (saturating_succ stale) })
connect_next timed_out stale l = (false, l)
connect_next (failed e) stale l = (false, l)

abbrev pub is_other : Option ℕ → ℕ → Bool
is_other none stale = false
is_other (some g) stale = not (eqb g stale)

unfoldable pub recover_ledger_connection : Attempt → ℕ → Link → Bool × Link
unfolding connect_next
recover_ledger_connection a stale l =
    if l.replacing
    then (false, l)
    else if is_other l.published stale
    then (true, l)
    else connect_next a stale l

-- What a call on the database comes to: a value, an error of the SDK, another error, or the
-- deadline. The errors of single statements count among the SDK's.
pub data Reply (A : Type 0) : Type 0 where
  value : A → Reply A
  sdk_error : Bool → Bool → Reply A
  other_error : Error → Reply A
  deadline : Reply A

-- `is_ledger_connection_error`: lost transport, or a session without a namespace or a database.
abbrev pub is_ledger_connection_error : Bool → Bool → Bool
is_ledger_connection_error transport no_namespace = transport || no_namespace

abbrev pub lost_to : (Bool → Error) → {A : Type 0} → Bool × Link → Result A × Link
lost_to e (recovered, l) = (err (e recovered), l)

unfoldable pub await_database : {A : Type 0} → Attempt → ℕ → Reply A → Link → Result A × Link
unfolding recover_ledger_connection
await_database a generation (value x) l = (ok x, l)
await_database a generation (sdk_error transport no_namespace) l =
    if is_ledger_connection_error transport no_namespace
    then lost_to connection_lost (recover_ledger_connection a generation l)
    else (err (other "database error"), l)
await_database a generation (other_error e) l = (err e, l)
await_database a generation deadline l =
    lost_to deadline_exceeded (recover_ledger_connection a generation l)
