-- ===== src/Ledger/Plan/Contiguous.antt =====
-- The parts of a plan that passes `validate_stored_plan`.
use surreal_memory_server.Common.{
  ℕ, zero, suc, ◌+◌, ◌≡◌, true, false, some, List, [], ◌∷◌, get_elem?, arith, Bool-cases, inl, inr,
}
use surreal_memory_server.Common.Text.{is_blank}
use surreal_memory_server.Ledger.Types.{Part, other}
use surreal_memory_server.Ledger.Monad.{ok, err}
use surreal_memory_server.Ledger.Plan.{contiguous, validate_stored_plan}

module _ {F : Type 0} where
  contiguous-get_elem? :
      (n k : ℕ) (ps : List (Part F)) (p : Part F)
      → contiguous n ps ≡ true
      → get_elem? k ps ≡ some p
      → (p.part_index ≡ n + k)
        × (p.token_start + p.token_count ≡ p.token_end)
        × (is_blank p.token_hash ≡ false)
  unfolding contiguous
  contiguous-get_elem? n k [] p h e = cc (e)
  contiguous-get_elem? n zero (q ∷ qs) p h e =
      let same : q ≡ p = cc (e) in rw (← same) (ground (arith, h))
  contiguous-get_elem? n (suc k) (q ∷ qs) p h e =
      let rest = contiguous-get_elem? (suc n) k qs p (ground (arith, h)) e in
      (omega arith, rest.1, rest.2)

  -- In a stored plan that `validate_stored_plan` passes, the part at each place has that place as its
  -- index, as many tokens as its bounds say, and a hash that is not blank.
  pub validate_stored_plan-get_elem? :
      (ps : List (Part F)) (k : ℕ) (p : Part F)
      → validate_stored_plan ps ≡ ok tt
      → get_elem? k ps ≡ some p
      → (p.part_index ≡ k)
        × (p.token_start + p.token_count ≡ p.token_end)
        × (is_blank p.token_hash ≡ false)
  unfolding validate_stored_plan
  validate_stored_plan-get_elem? [] k p h e = cc (e)
  validate_stored_plan-get_elem? (q ∷ qs) k p h e = elim (Bool-cases (contiguous 0 (q ∷ qs))) [
    | inl c ↦ let at = contiguous-get_elem? 0 k (q ∷ qs) p c e in (omega arith, at.1, at.2)
    | inr c ↦
        let clash : err (other "persisted embedding plan is not contiguous and self-consistent")
            ≡ ok tt =
          rw c at h in
        cc (clash)
  ]
