-- ===== src/Compression/Status.antt =====
-- The status of a stored claim and its codec, from
-- crates/surreal-memory/src/compression/contract.rs.
use surreal_memory_server.Common.{
  String, Bool, true, false, Option, none, some, ◌==◌, if◌then◌else◌, ◌≡◌, refl,
}

pub data ClaimStatus : Type 0 where
  candidate promoted quarantined rejected superseded demoted stale : ClaimStatus

unfoldable pub as_str : ClaimStatus → String
as_str candidate = "candidate"
as_str promoted = "promoted"
as_str quarantined = "quarantined"
as_str rejected = "rejected"
as_str superseded = "superseded"
as_str demoted = "demoted"
as_str stale = "stale"

unfoldable pub parse : String → Option ClaimStatus
parse value =
    if value == "candidate"
    then some candidate
    else if value == "promoted"
    then some promoted
    else if value == "quarantined"
    then some quarantined
    else if value == "rejected"
    then some rejected
    else if value == "superseded"
    then some superseded
    else if value == "demoted"
    then some demoted
    else if value == "stale"
    then some stale
    else none

unfoldable pub is_default_eligible : ClaimStatus → Bool
is_default_eligible promoted = true
is_default_eligible _ = false

pub parse-as_str : (s : ClaimStatus) → parse (as_str s) ≡ some s
unfolding parse as_str
parse-as_str candidate = refl
parse-as_str promoted = refl
parse-as_str quarantined = refl
parse-as_str rejected = refl
parse-as_str superseded = refl
parse-as_str demoted = refl
parse-as_str stale = refl
