-- ===== src/Ledger/Http/Permission.antt =====
-- Which requests to submit reach the ledger, and requests that are sent again.
use surreal_memory_server.Common.{
  ℕ, String, ◌≡◌, refl, ap, ◌∙◌, Bool, true, false, Option, ◌==◌, ◌&&◌, not, if◌then◌else◌, eq_refl,
  Bool-cases, inl, inr,
}
use surreal_memory_server.Auth.{Principal}
use surreal_memory_server.Ledger.Types.{OperationRequest, Receipt, World}
use surreal_memory_server.Ledger.Monad.{Result, ok, err}
use surreal_memory_server.Ledger.Request.{rekey_agent_id_kind}
use surreal_memory_server.Ledger.Sound.{Sound}
use surreal_memory_server.Ledger.Submit.{Submission, receipt, invalid, conflict, submit}
use surreal_memory_server.Ledger.Submit.Replies.{submit-repeats}
use surreal_memory_server.Ledger.Served.{IsServed}
use surreal_memory_server.Ledger.Http.{
  Response, answered, failed, is_loopback, submitted, submit_operation,
}

module _ {V F S : Type 0} (w : World V F S) where
  -- A request to re-key gets 403 and changes nothing, unless the caller has the operator permission
  -- and the peer is known to be loopback.
  pub rekey-refused :
      (record_key : String → String) (payload_hash : V → Option String) (p : Principal)
      (peer : Option Bool) (r : OperationRequest V)
      → r.kind ≡ rekey_agent_id_kind
      → (p.operator && is_loopback peer) ≡ false
      → submit_operation record_key payload_hash p peer r w ≡ (failed 403, w)
  unfolding submit_operation
  rekey-refused record_key payload_hash p peer r kind h =
      let same : (r.kind == rekey_agent_id_kind) ≡ true = simp kind (eq_refl rekey_agent_id_kind) in
      elim (Bool-cases p.operator) [
        | inr o ↦ simp (same, o) refl
        | inl o ↦ let far : is_loopback peer ≡ false = simp o at h in simp (same, o, far) refl
      ]

module _ {V F S : Type 0} (record_key : String → String) (payload_hash : V → Option String) where
  -- Only a submission that was answered with a receipt gets 202 or 200.
  receipt-behind :
      (end : Result (Submission V) × World V F S) (n : ℕ) (x : Receipt V) (u : World V F S)
      → submitted end ≡ (answered n x, u)
      → (fresh : Bool) × (end ≡ (ok (receipt x fresh), u))
  unfolding submitted
  receipt-behind (ok (receipt y fresh), v) n x u h =
      let statuses : answered (if fresh then 202 else 200) y ≡ answered n x = ap (λ r. r.0) h in
      let same : y ≡ x = cc (statuses) in
      (
        fresh,
        ap (λ r. (ok (receipt r fresh), v)) same
            ∙ ap (λ v'. (ok (receipt x fresh), v')) (ap (λ r. r.1) h),
      )
  receipt-behind (ok (invalid i), v) n x u h =
      let clash : failed 400 ≡ answered n x = ap (λ r. r.0) h in cc (clash)
  receipt-behind (ok (conflict y), v) n x u h =
      let clash : failed 409 ≡ answered n x = ap (λ r. r.0) h in cc (clash)
  receipt-behind (err e, v) n x u h =
      let clash : failed 503 ≡ answered n x = ap (λ r. r.0) h in cc (clash)

  -- A submission that repeats an answered one gets 200 and the same receipt.
  submitted-repeats :
      (r : OperationRequest V) (w u : World V F S) (n : ℕ) (x : Receipt V)
      → Sound w.tables
      → IsServed u
      → submitted (submit record_key payload_hash r w) ≡ (answered n x, u)
      → ((submitted (submit record_key payload_hash r u)).0 ≡ answered 200 x)
        × ((submitted (submit record_key payload_hash r u)).1.tables ≡ u.tables)
  unfolding submitted
  submitted-repeats r w u n x s served h =
      let (fresh, done) = receipt-behind (submit record_key payload_hash r w) n x u h in
      let again = submit-repeats record_key payload_hash r w u x fresh s done served in
      shown (submit record_key payload_hash r u) again.0 again.1
    where
      shown :
          (end : Result (Submission V) × World V F S)
          → end.0 ≡ ok (receipt x false)
          → end.1.tables ≡ u.tables
          → ((submitted end).0 ≡ answered 200 x) × ((submitted end).1.tables ≡ u.tables)
      shown (a, v) e t = rw e (refl, t)

  -- A request to submit that was answered with a receipt, 202 or 200, may be sent again by the same
  -- caller from the same peer: if the database then serves the calls, the answer is 200 with the
  -- same receipt, and no table changes. The ledger is sound before the first request, however the
  -- database answers that.
  pub submit_operation-repeats :
      (p : Principal) (peer : Option Bool) (r : OperationRequest V) (w u : World V F S) (n : ℕ)
      (x : Receipt V)
      → Sound w.tables
      → submit_operation record_key payload_hash p peer r w ≡ (answered n x, u)
      → IsServed u
      → ((submit_operation record_key payload_hash p peer r u).0 ≡ answered 200 x)
        × ((submit_operation record_key payload_hash p peer r u).1.tables ≡ u.tables)
  unfolding submit_operation
  submit_operation-repeats p peer r w u n x s h served =
      elim (Bool-cases ((r.kind == rekey_agent_id_kind) && not p.operator)) [
        | inl a ↦
            let clash : Path (Response V × World V F S) (failed 403, w) (answered n x, u) =
              rw a at h in
            let statuses : Path (Response V) (failed 403) (answered n x) = ap (λ q. q.0) clash in
            cc (statuses)
        | inr a ↦ elim (Bool-cases ((r.kind == rekey_agent_id_kind) && not (is_loopback peer))) [
          | inl b ↦
              let clash : Path (Response V × World V F S) (failed 403, w) (answered n x, u) =
                rw (a, b) at h in
              let statuses : Path (Response V) (failed 403) (answered n x) = ap (λ q. q.0) clash in
              cc (statuses)
          | inr b ↦ rw (a, b) (submitted-repeats r w u n x s served (rw (a, b) at h))
        ]
      ]
