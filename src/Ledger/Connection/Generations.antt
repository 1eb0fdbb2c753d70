-- ===== src/Ledger/Connection/Generations.antt =====
-- The generations of the ledger's connection over `await_database` and its replacement.
use surreal_memory_server.Common.{
  ℕ, ◌-◌, ◌^◌, ◌<◌, ◌≡◌, ◌≢◌, refl, ◌∙◌, sym, subst, Bool, true, false, Option, none, some, ◌||◌,
  eqb, eqb_iff, Bool-cases, inl, inr, arith,
}
use surreal_memory_server.Ledger.Types.{Error, deadline_exceeded, connection_lost, other}
use surreal_memory_server.Ledger.Monad.{err}
use surreal_memory_server.Ledger.Connection.{
  Link, Attempt, connected, timed_out, failed, saturating_succ, recover_ledger_connection,
  connect_next, is_other, Reply, value, sdk_error, other_error, deadline, await_database,
}

-- Whether an error says that the connection was replaced.
abbrev pub says_recovered : Error → Bool
says_recovered (deadline_exceeded b) = b
says_recovered (connection_lost b) = b
says_recovered _ = false

-- The errors that a call brings with it do not come from this module.
abbrev pub own_error : {A : Type 0} → Reply A → Bool
own_error (other_error e) = true
own_error _ = false

-- A generation other than the stale one is published.
abbrev pub Fresh : ℕ → Link → Type 0
Fresh stale l = (g : ℕ) × (l.published ≡ some g) × (g ≢ stale)

-- The next generation is another one.
succ-other : (stale : ℕ) → stale < 2 ^ 64 - 1 → saturating_succ stale ≢ stale
succ-other stale small = λ same. absurd (ground (arith, small, same))

connect_next-Fresh :
    (a : Attempt) (stale : ℕ) (l : Link)
    → stale < 2 ^ 64 - 1
    → (connect_next a stale l).0 ≡ true
    → Fresh stale (connect_next a stale l).1
unfolding connect_next
connect_next-Fresh connected stale l small h = (saturating_succ stale, refl, succ-other stale small)
connect_next-Fresh timed_out stale l small h = cc (h)
connect_next-Fresh (failed e) stale l small h = cc (h)

recover-Fresh :
    (a : Attempt) (stale : ℕ) (l : Link)
    → stale < 2 ^ 64 - 1
    → (recover_ledger_connection a stale l).0 ≡ true
    → Fresh stale (recover_ledger_connection a stale l).1
unfolding recover_ledger_connection
recover-Fresh a stale l small h = go l.replacing l.published h
  where
    go :
        (b : Bool) (p : Option ℕ)
        → (recover_ledger_connection a stale (record { published = p; replacing = b })).0 ≡ true
        → Fresh stale
            (recover_ledger_connection a stale (record { published = p; replacing = b })).1
    go true p h = cc (h)
    go false none h =
        connect_next-Fresh a stale (record { published = none; replacing = false }) small h
    go false (some g) h = elim (Bool-cases (eqb g stale)) [
      | inl e ↦ rw e (
          connect_next-Fresh a stale (record { published = some g; replacing = false }) small
            (rw e at h))
      | inr e ↦ rw e (g, refl, λ same. absurd (ground (arith, e, same)))
    ]

-- An error of `await_database` that says the connection was recovered leaves a connection published
-- whose generation is not the one that failed, so that a call which is made again does not meet the
-- same one. The error is not one that the call brought with it, and the counter has not reached its
-- end.
pub await_database-Fresh :
    {A : Type 0} (a : Attempt) (generation : ℕ) (reply : Reply A) (l : Link) (e : Error)
    → generation < 2 ^ 64 - 1
    → own_error reply ≡ false
    → (await_database a generation reply l).0 ≡ err e
    → says_recovered e ≡ true
    → Fresh generation (await_database a generation reply l).1
unfolding await_database
await_database-Fresh a generation (value x) l e small own h r = cc (h)
await_database-Fresh a generation (other_error x) l e small own h r = cc (own)
await_database-Fresh a generation deadline l e small own h r =
    let same : deadline_exceeded (recover_ledger_connection a generation l).0 ≡ e = cc (h) in
    recover-Fresh a generation l small (subst (λ x. says_recovered x ≡ true) (sym same) r)
await_database-Fresh a generation (sdk_error t n) l e small own h r = elim (Bool-cases (t || n)) [
  | inl c ↦
      let shown : err (connection_lost (recover_ledger_connection a generation l).0) ≡ err e =
        rw c at h in
      let same : connection_lost (recover_ledger_connection a generation l).0 ≡ e = cc (shown) in
      rw c (recover-Fresh a generation l small (subst (λ x. says_recovered x ≡ true) (sym same) r))
  | inr c ↦
      let shown : err (other "database error") ≡ err e = rw c at h in
      let same : other "database error" ≡ e = cc (shown) in
      let clash : says_recovered (other "database error") ≡ true =
        subst (λ x. says_recovered x ≡ true) (sym same) r in
      cc (clash)
]

connect_next-replacing :
    (a : Attempt) (stale : ℕ) (l : Link) → (connect_next a stale l).1.replacing ≡ l.replacing
unfolding connect_next
connect_next-replacing connected stale l = refl
connect_next-replacing timed_out stale l = refl
connect_next-replacing (failed e) stale l = refl

recover-replacing :
    (a : Attempt) (stale : ℕ) (l : Link)
    → (recover_ledger_connection a stale l).1.replacing ≡ l.replacing
unfolding recover_ledger_connection
recover-replacing a stale l = elim (Bool-cases l.replacing) [
  | inl e ↦ simp e refl
  | inr e ↦ elim (Bool-cases (is_other l.published stale)) [
    | inl o ↦ simp (e, o) refl
    | inr o ↦ simp (e, o) (connect_next-replacing a stale l ∙ e)
  ]
]

recover_unchanged :
    (a : Attempt) (stale : ℕ) (l : Link)
    → Fresh stale l
    → l.replacing ≡ false
    → recover_ledger_connection a stale l ≡ (true, l)
unfolding recover_ledger_connection
recover_unchanged a stale l fresh free =
    let (g, shown, differs) = fresh in
    let differs_b : is_other l.published stale ≡ true =
      simp shown (elim (Bool-cases (eqb g stale)) [
        | inl e ↦ absurd (differs ((eqb_iff g stale).0 e))
        | inr e ↦ simp e refl
      ]) in
    simp (free, differs_b) refl

-- Of two callers that saw the same generation fail, the second one finds the connection replaced
-- where the first one succeeded: whatever the connector would answer it, it changes nothing and goes
-- on with the generation of the first. Nobody else is replacing the connection, and the counter has
-- not reached its end.
pub second-caller_keeps :
    (a b : Attempt) (stale : ℕ) (l : Link)
    → stale < 2 ^ 64 - 1
    → l.replacing ≡ false
    → (recover_ledger_connection a stale l).0 ≡ true
    → recover_ledger_connection b stale (recover_ledger_connection a stale l).1
      ≡ (true, (recover_ledger_connection a stale l).1)
second-caller_keeps a b stale l small free h =
    recover_unchanged b stale (recover_ledger_connection a stale l).1
      (recover-Fresh a stale l small h) (recover-replacing a stale l ∙ free)
