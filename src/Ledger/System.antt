-- ===== src/Ledger/System.antt =====
-- The ledger as its callers use it: any sequence of submissions, operator calls and rounds of the
-- coordinator, from an empty ledger, under any answers of the database. The calls follow one
-- another; the race of two writers for one row is the subject of `Commit`.
pub mod Examples
pub mod Reached
mod Witnesses
use surreal_memory_server.Common.{
  ℕ, ◌≤◌, String, ◌≡◌, refl, ◌∙◌, subst, Bool, true, false, Option, none, some, List, [], ◌∷◌, ◌++◌,
  All, arith,
}
use surreal_memory_server.Ledger.State.{OperationState, committed, is_terminal}
use surreal_memory_server.Ledger.Types.{OperationRequest, Operation, Event, Tables, Outcome, World}
use surreal_memory_server.Ledger.Monad.{Result, ok, err, M}
use surreal_memory_server.Ledger.Queries.{find, events_of}
use surreal_memory_server.Ledger.Lifecycle.{is_ready}
use surreal_memory_server.Ledger.Journal.{History, Journal, state_of, sequence_of}
use surreal_memory_server.Ledger.Sound.{
  Sound, Grows, Survives, Later, IsCommitted, Grows-refl, Grows-trans,
}
use surreal_memory_server.Ledger.Safe.{Safe, Ends, Anything}
use surreal_memory_server.Ledger.Env.{Env}
use surreal_memory_server.Ledger.Aggregate.{Floats}
use surreal_memory_server.Ledger.Submit.{submit}
use surreal_memory_server.Ledger.Submit.Sound.{submit-Safe}
use surreal_memory_server.Ledger.Operator.{retry, reject}
use surreal_memory_server.Ledger.Operator.Sound.{retry-Safe, reject-Safe}
use surreal_memory_server.Ledger.Drain.{drain_pending, reconcile_nonterminal, startup}
use surreal_memory_server.Ledger.Drain.Sound.{
  drain_pending-Safe, reconcile_nonterminal-Safe, startup-Safe,
}

-- A call of the service, or a step of the coordinator's task `run`: its start, a wake, a tick of
-- the sweep. The number is the fuel of the loop in `drain_pending`.
pub data Call (V : Type 0) : Type 0 where
  submission : OperationRequest V → Call V
  retrial : String → Call V
  rejection : String → String → Call V
  woken : ℕ → List String → Call V
  startup_pass sweep : ℕ → Call V

module _ {V F S : Type 0} where
  -- An empty ledger, before answers that are still to come.
  abbrev pub empty : List Outcome → S → World V F S
  empty outcomes s = record {
    tables = record { operations = []; events = []; parts = [] };
    outcomes = outcomes;
    published = [];
    wakes = [];
    in_flight = none;
    store = s;
  }

  pub empty-Sound : (outcomes : List Outcome) (s : S) → Sound (empty outcomes s).tables
  unfolding find events_of
  empty-Sound outcomes s = record {
    journal = record { history = λ id. (refl, refl) };
    ready = λ id o found. absurd (cc);
  }

module _ {V F S : Type 0} (env : Env V F S) (floats : Floats F)
    (payload_hash : V → Option String) where
  -- The world after a call, whatever its result.
  unfoldable pub perform : Call V → World V F S → World V F S
  perform (submission r) w = (submit env.record_key payload_hash r w).1
  perform (retrial id) w = (retry env id w).1
  perform (rejection id reason) w = (reject env id reason w).1
  perform (woken fuel ids) w = (drain_pending env floats fuel ids w).1
  perform (startup_pass fuel) w = (startup env floats fuel w).1
  perform (sweep fuel) w = (reconcile_nonterminal env floats fuel w).1

  unfoldable pub run : List (Call V) → World V F S → World V F S
  run [] w = w
  run (c ∷ cs) w = run cs (perform c w)

module _ {V F S : Type 0} (env : Env V F S) (floats : Floats F) (payload_hash : V → Option String)
    (keys : (a b : String) → env.record_key a ≡ env.record_key b → a ≡ b) where
  -- What every call keeps.
  abbrev Kept : World V F S → World V F S → Type 0
  Kept w u = Sound u.tables × Grows w.tables u.tables

  kept-of :
      {A : Type 0} (Q : A → Tables V F → Type 0) (t : Tables V F) (end : Result A × World V F S)
      → Ends Q t end
      → Sound (end.1).tables × Grows t (end.1).tables
  kept-of Q t (ok a, w) h = (h.0, h.1)
  kept-of Q t (err e, w) h = h

  kept_by :
      {A : Type 0} {Q : A → Tables V F → Type 0} (m : M (World V F S) A)
      → Safe Anything m Q
      → (w : World V F S) → Sound w.tables
      → Kept w (m w).1
  kept_by m h w s = kept-of _ w.tables (m w) (h.at w s tt)

  perform-Kept :
      (c : Call V) (w : World V F S) → Sound w.tables → Kept w (perform env floats payload_hash c w)
  unfolding perform
  perform-Kept (submission r) w s = kept_by _ (submit-Safe env.record_key payload_hash r) w s
  perform-Kept (retrial id) w s = kept_by _ (retry-Safe env keys id) w s
  perform-Kept (rejection id reason) w s = kept_by _ (reject-Safe env keys id reason) w s
  perform-Kept (woken fuel ids) w s = kept_by _ (drain_pending-Safe env floats keys fuel ids) w s
  perform-Kept (startup_pass fuel) w s = kept_by _ (startup-Safe env floats keys fuel) w s
  perform-Kept (sweep fuel) w s = kept_by _ (reconcile_nonterminal-Safe env floats keys fuel) w s

  pub run-Kept :
      (cs : List (Call V)) (w : World V F S)
      → Sound w.tables
      → Kept w (run env floats payload_hash cs w)
  unfolding run
  run-Kept [] w s = (s, Grows-refl w.tables)
  run-Kept (c ∷ cs) w s =
      let first = perform-Kept c w s in
      let rest = run-Kept cs (perform env floats payload_hash c w) first.0 in
      (rest.0, Grows-trans _ _ _ first.1 rest.1)
