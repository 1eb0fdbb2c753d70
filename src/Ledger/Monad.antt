-- ===== src/Ledger/Monad.antt =====
-- An `async` method of `OperationService` as a function of the world: what it wrote before an
-- error stays written. Each database call takes the next outcome.
use surreal_memory_server.Common.{Option, none, some, List, [], ◌∷◌}
use surreal_memory_server.Ledger.Types.{
  Tables, Error, statement_failed, Outcome, served, refused, unanswered, World,
}

pub data Result {ℓ} (A : Type ℓ) : Type ℓ where
  ok : A → Result A
  err : Error → Result A

abbrev pub M : Type 0 → Type 0 → Type 0
M W A = W → Result A × W

module _ {W A : Type 0} where
  unfoldable pub pure : A → M W A
  pure a w = (ok a, w)

  unfoldable pub raise : Error → M W A
  raise e w = (err e, w)

  unfoldable pub gets : (W → A) → M W A
  gets f w = (ok (f w), w)

  -- The result of an action as a value, as in a `match` on it.
  unfoldable pub attempt : M W A → M W (Result A)
  attempt m w = let (r, w') = m w in (ok r, w')

  -- A result that was computed without the world, under `?`.
  unfoldable pub lift : Result A → M W A
  lift r w = (r, w)

-- A step that changes the process's own state, and cannot fail.
unfoldable pub modify : {W : Type 0} → (W → W) → M W (Unit {0})
modify f w = (ok tt, f w)

module _ {W A B : Type 0} where
  abbrev pub and_then : (A → M W B) → Result A × W → Result B × W
  and_then f (ok a, w) = f a w
  and_then f (err e, w) = (err e, w)

  infixl 5 ◌>>=◌ ◌>>◌
  unfoldable pub ◌>>=◌ : M W A → (A → M W B) → M W B
  ◌>>=◌ m f w = and_then f (m w)

  abbrev pub ◌>>◌ : M W A → M W B → M W B
  m >> k = m >>= λ _. k

module _ {V F S : Type 0} where
  -- The next answer of the database.
  unfoldable pub next_outcome : List Outcome → World V F S → Outcome × World V F S
  next_outcome [] w = (served, w)
  next_outcome (o ∷ rest) w = (o, record w { outcomes = rest })

  -- A query: it answers from the tables and changes nothing.
  unfoldable pub fetch_answered : {A : Type 0} → A → Outcome → World V F S → Result A × World V F S
  fetch_answered a served w = (ok a, w)
  fetch_answered a (refused e) w = (err e, w)
  fetch_answered a (unanswered e) w = (err e, w)

  unfoldable pub fetch : {A : Type 0} → (Tables V F → A) → M (World V F S) A
  unfolding next_outcome fetch_answered
  fetch f w = let (o, w') = next_outcome w.outcomes w in fetch_answered (f w'.tables) o w'

  -- A transaction: it takes effect as a whole, or (`none`) one of its statements fails.
  unfoldable pub write_answered :
      Outcome → Option (Tables V F) → World V F S → Result (Unit {0}) × World V F S
  write_answered (refused e) written w = (err e, w)
  write_answered served none w = (err statement_failed, w)
  write_answered served (some t) w = (ok tt, record w { tables = t })
  write_answered (unanswered e) none w = (err e, w)
  write_answered (unanswered e) (some t) w = (err e, record w { tables = t })

  unfoldable pub write : (Tables V F → Option (Tables V F)) → M (World V F S) (Unit {0})
  unfolding next_outcome write_answered
  write f w = let (o, w') = next_outcome w.outcomes w in write_answered o (f w'.tables) w'

-- A call of the storage or of the embedding service.
unfoldable pub call : {V F S A : Type 0} → (S → Result A × S) → M (World V F S) A
call f w = let (r, s) = f w.store in (r, record w { store = s })
