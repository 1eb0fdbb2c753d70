-- ===== src/Ledger/Http.antt =====
-- The HTTP handlers of the ledger: `router`, `submit_operation`, `retry_operation`,
-- `reject_operation`, `require_operator` and `operator_failure` of
-- src/operations.rs. A response is a status with a receipt, or a status with an error.
pub mod Permission
use surreal_memory_server.Common.{
  ℕ, String, Bool, true, false, Option, none, some, ◌==◌, ◌&&◌, not, if◌then◌else◌,
}
use surreal_memory_server.Auth.{Principal}
use surreal_memory_server.Ledger.Types.{OperationRequest, Receipt, World}
use surreal_memory_server.Ledger.Monad.{Result, ok, err}
use surreal_memory_server.Ledger.Request.{rekey_agent_id_kind}
use surreal_memory_server.Ledger.Submit.{Submission, receipt, invalid, conflict, submit}
use surreal_memory_server.Ledger.Env.{Env}
use surreal_memory_server.Ledger.Operator.{
  Refusal, not_found, reason_empty, being_processed, already_stored, already, Answer, done, refusal,
  retry, reject,
}

pub data Response (V : Type 0) : Type 0 where
  answered : ℕ → Receipt V → Response V
  failed : ℕ → Response V

-- `operator_failure`, but for `Storage`.
unfoldable pub refusal_status : Refusal → ℕ
refusal_status not_found = 404
refusal_status reason_empty = 400
refusal_status being_processed = 409
refusal_status already_stored = 409
refusal_status (already s) = 409

-- The address of the peer, if it is known, as whether it is loopback.
abbrev pub is_loopback : Option Bool → Bool
is_loopback none = false
is_loopback (some b) = b

module _ {V F S : Type 0} where
  unfoldable pub submitted : Result (Submission V) × World V F S → Response V × World V F S
  submitted (ok (receipt x created), w) = (answered (if created then 202 else 200) x, w)
  submitted (ok (invalid i), w) = (failed 400, w)
  submitted (ok (conflict x), w) = (failed 409, w)
  submitted (err e, w) = (failed 503, w)

  unfoldable pub operated : ℕ → Result (Answer V) × World V F S → Response V × World V F S
  unfolding refusal_status
  operated status (ok (done x), w) = (answered status x, w)
  operated status (ok (refusal r), w) = (failed (refusal_status r), w)
  operated status (err e, w) = (failed 503, w)

  unfoldable pub submit_operation :
      (String → String)
      → (V → Option String)
      → Principal
      → Option Bool
      → OperationRequest V
      → World V F S
      → Response V × World V F S
  unfolding submitted
  submit_operation record_key payload_hash p peer r w =
      if (r.kind == rekey_agent_id_kind) && not p.operator
      then (failed 403, w)
      else if (r.kind == rekey_agent_id_kind) && not (is_loopback peer)
      then (failed 403, w)
      else submitted (submit record_key payload_hash r w)

  unfoldable pub retry_operation :
      Env V F S → Principal → String → World V F S → Response V × World V F S
  unfolding operated
  retry_operation env p id w = if p.operator then operated 202 (retry env id w) else (failed 403, w)

  unfoldable pub reject_operation :
      Env V F S → Principal → String → String → World V F S → Response V × World V F S
  unfolding operated
  reject_operation env p id reason w =
      if p.operator then operated 200 (reject env id reason w) else (failed 403, w)
