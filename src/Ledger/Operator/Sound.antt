-- ===== src/Ledger/Operator/Sound.antt =====
-- `retry` and `reject` under every answer of the database and of the storage.
use surreal_memory_server.Common.{
  String, ◌≡◌, refl, Bool, true, false, Option, none, some, ◌||◌, ◌==◌, Bool-cases, inl, inr,
}
use surreal_memory_server.Common.Text.{is_empty, trim}
use surreal_memory_server.Ledger.State.{OperationState, rejected, is_terminal, accepted, committed}
use surreal_memory_server.Ledger.Types.{Receipt, Tables, already_terminal}
use surreal_memory_server.Ledger.Monad.{Result, ok, err}
use surreal_memory_server.Ledger.Transition.{receipt_of}
use surreal_memory_server.Ledger.Lifecycle.{may_follow}
use surreal_memory_server.Ledger.Safe.{
  Safe, Anything, Safe-pure, Safe-raise, Safe-gets, Safe-attempt, Safe-call, Safe-bind,
  Safe-strengthen,
}
use surreal_memory_server.Ledger.Guarded.{CanMove, Moved, Safe-get, Safe-wake, transition-Safe}
use surreal_memory_server.Ledger.Changes.{is_indexed}
use surreal_memory_server.Ledger.Env.{Env}
use surreal_memory_server.Ledger.Operator.{
  Answer, done, refusal, retry, retry_found, rejection, memory_stored, rejected_or,
  reject_unless_stored, reject_found, reject_idle, reject,
}

-- Any unfinished operation may be rejected, and a rejected one owes its dependencies nothing.
pub reject_edge : (s : OperationState) → is_terminal s ≡ false → may_follow s rejected ≡ true
unfolding is_terminal
reject_edge accepted h = refl
reject_edge committed h = cc
reject_edge rejected h = cc
reject_edge _ h = refl

pub rejection-CanMove :
    {V F : Type 0} (id reason : String) (t : Tables V F) → CanMove id (rejection reason) t
rejection-CanMove id reason t o here live = (reject_edge o.state live, λ h. cc)

module _ {V F : Type 0} where
  -- A success of `reject` leaves the operation rejected, and shows it so.
  abbrev pub Rejected : String → Answer V → Tables V F → Type 0
  Rejected id (done r) t = (receipt_of id t ≡ some r) × (r.state ≡ rejected)
  Rejected id (refusal x) t = Unit

module _ {V F S : Type 0} (env : Env V F S)
    (keys : (a b : String) → env.record_key a ≡ env.record_key b → a ≡ b) where
  rejected_or-Safe :
      (id reason : String) (end : Result (Receipt V))
      → Safe {F = F} {S = S}
          (λ t. elim end [ ok r ↦ Moved id (rejection reason) r t | err e ↦ Unit {0} ])
          (rejected_or env end)
          (Rejected id)
  unfolding rejected_or
  rejected_or-Safe id reason (ok r) = Safe-pure _ (λ t p. (p.0, p.1))
  rejected_or-Safe id reason (err (already_terminal j s)) = Safe-pure _ (λ t p. tt)
  rejected_or-Safe id reason (err e) = Safe-raise _

  reject_unless_stored-Safe :
      (id reason : String) (r : Receipt V) (stored : Bool)
      → Safe {F = F} Anything (reject_unless_stored env id reason r stored) (Rejected id)
  unfolding reject_unless_stored
  reject_unless_stored-Safe id reason r stored = elim (Bool-cases (is_indexed r.state || stored)) [
    | inl kept ↦ rw kept (Safe-pure _ (λ t p. tt))
    | inr free ↦ rw free (
        Safe-bind _ _
          (Safe-attempt _ (
            Safe-strengthen _ _ (λ t s p. rejection-CanMove id reason t)
              (transition-Safe env.record_key keys id (rejection reason))))
          (rejected_or-Safe id reason))
  ]

  memory_stored-Safe :
      (id : String) (r : Receipt V) → Safe {F = F} Anything (memory_stored env id r) (λ _. Anything)
  unfolding memory_stored
  memory_stored-Safe id r = elim (Bool-cases (r.kind == "add_memory")) [
    | inl e ↦ rw e (Safe-call _ (λ a t p. tt))
    | inr e ↦ rw e (Safe-pure _ (λ t p. tt))
  ]

  reject_found-Safe :
      (id reason : String) (found : Option (Receipt V))
      → Safe {F = F} Anything (reject_found env id reason found) (Rejected id)
  unfolding reject_found
  reject_found-Safe id reason none = Safe-pure _ (λ t p. tt)
  reject_found-Safe id reason (some r) = elim (Bool-cases (is_terminal r.state)) [
    | inl e ↦ rw e (Safe-pure _ (λ t p. tt))
    | inr e ↦ rw e (Safe-bind _ _ (memory_stored-Safe id r) (reject_unless_stored-Safe id reason r))
  ]

  reject_idle-Safe :
      (id reason : String) (busy : Bool)
      → Safe {F = F} Anything (reject_idle env id reason busy) (Rejected id)
  unfolding reject_idle
  reject_idle-Safe id reason true = Safe-pure _ (λ t p. tt)
  reject_idle-Safe id reason false =
      Safe-bind _ _ (Safe-get _ id)
        (λ found. Safe-strengthen _ _ (λ t s p. tt) (reject_found-Safe id _ found))

  -- `reject` keeps the ledger sound, and what it reports as rejected is rejected.
  pub reject-Safe :
      (id reason : String) → Safe {F = F} Anything (reject env id reason) (Rejected id)
  unfolding reject
  reject-Safe id reason = elim (Bool-cases (is_empty (trim reason))) [
    | inl e ↦ rw e (Safe-pure _ (λ t p. tt))
    | inr e ↦ rw e (
        Safe-bind {Q = λ _. Anything} _ _ (Safe-gets _ (λ w p. tt))
          (reject_idle-Safe id (trim reason)))
  ]

  pub retry-Safe : (id : String) → Safe {F = F} Anything (retry env id) (λ _. Anything)
  unfolding retry
  retry-Safe id =
      Safe-bind _ _ (Safe-get _ id) (λ found. Safe-strengthen _ _ (λ t s p. tt) (found-Safe found))
    where
      found-Safe :
          (found : Option (Receipt V))
          → Safe {F = F} Anything (retry_found env id found) (λ _. Anything)
      found-Safe none = Safe-pure _ (λ t p. tt)
      found-Safe (some r) = elim (Bool-cases (is_terminal r.state)) [
        | inl e ↦ rw e (Safe-pure _ (λ t p. tt))
        | inr e ↦ rw e (Safe-bind _ _ (Safe-wake _ id) (λ _. Safe-pure _ (λ t p. tt)))
      ]
