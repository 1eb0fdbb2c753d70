-- ===== src/Ledger/Safe.antt =====
-- Partial correctness of the ledger's actions under every answer of the database: from sound
-- tables with `P`, an action leaves sound tables that have grown, and `Q` if it succeeds. One rule
-- for each way to build an action.
use surreal_memory_server.Common.{
  ◌≡◌, refl, Bool, true, false, Option, none, some, List, [], ◌∷◌, if◌then◌else◌,
}
use surreal_memory_server.Ledger.Types.{Tables, Outcome, served, refused, unanswered, Error, World}
use surreal_memory_server.Ledger.Monad.{
  Result, ok, err, M, pure, raise, gets, attempt, lift, call, modify, ◌>>=◌, and_then, next_outcome,
  fetch, write, fetch_answered, write_answered,
}
use surreal_memory_server.Ledger.Sound.{Sound, Grows, Grows-refl, Grows-trans}

module _ {V F S A : Type 0} where
  abbrev pub Ends : (A → Tables V F → Type 0) → Tables V F → Result A × World V F S → Type 0
  Ends Q t (ok a, w) = Sound w.tables × Grows t w.tables × Q a w.tables
  Ends Q t (err e, w) = Sound w.tables × Grows t w.tables

  pub record Safe (P : Tables V F → Type 0) (m : M (World V F S) A) (Q : A → Tables V F → Type 0)
      : Type 0 where
    pub at : (w : World V F S) → Sound w.tables → P w.tables → Ends Q w.tables (m w)

abbrev pub Anything : {V F : Type 0} → Tables V F → Type 0
Anything t = Unit

module _ {V F S A : Type 0} {P : Tables V F → Type 0} {Q : A → Tables V F → Type 0} where
  pub Safe-pure : (a : A) → ((t : Tables V F) → P t → Q a t) → Safe {S = S} P (pure a) Q
  unfolding pure
  Safe-pure a h = record { at = λ w s p. (s, Grows-refl w.tables, h w.tables p) }

  pub Safe-raise : (e : Error) → Safe {S = S} P (raise e) Q
  unfolding raise
  Safe-raise e = record { at = λ w s p. (s, Grows-refl w.tables) }

  pub Safe-if :
      (b : Bool) (m n : M (World V F S) A)
      → (b ≡ true → Safe P m Q)
      → (b ≡ false → Safe P n Q)
      → Safe P (if b then m else n) Q
  Safe-if true m n hm hn = hm refl
  Safe-if false m n hm hn = hn refl

  -- Where the precondition cannot hold, nothing is asked.
  pub Safe-absurd : (m : M (World V F S) A) → ((t : Tables V F) → Sound t → P t → ⊥) → Safe P m Q
  Safe-absurd m h = record { at = λ w s p. absurd (h w.tables s p) }

  -- What the precondition says beside the tables may be used to build the proof.
  pub Safe-given :
      (E : Type 0) (m : M (World V F S) A)
      → ((t : Tables V F) → P t → E)
      → (E → Safe P m Q)
      → Safe P m Q
  Safe-given E m h k = record { at = λ w s p. (k (h w.tables p)).at w s p }

  pub Safe-strengthen :
      (P' : Tables V F → Type 0) (m : M (World V F S) A)
      → ((t : Tables V F) → Sound t → P t → P' t)
      → Safe P' m Q
      → Safe P m Q
  Safe-strengthen P' m h k = record { at = λ w s p. k.at w s (h w.tables s p) }

  pub Safe-weaken :
      (Q' : A → Tables V F → Type 0) (m : M (World V F S) A)
      → ((a : A) (t : Tables V F) → Q' a t → Q a t)
      → Safe P m Q'
      → Safe P m Q
  Safe-weaken Q' m h k = record { at = λ w s p. go (m w) w.tables (k.at w s p) }
    where
      go : (end : Result A × World V F S) (t : Tables V F) → Ends Q' t end → Ends Q t end
      go (ok a, w) t e = (e.0, e.1, h a w.tables e.2)
      go (err x, w) t e = e

  pub Safe-fetch :
      (f : Tables V F → A) → ((t : Tables V F) → P t → Q (f t) t) → Safe {S = S} P (fetch f) Q
  unfolding fetch
  Safe-fetch f h = record { at = λ w. go w.outcomes w }
    where
      go :
          (os : List Outcome) (w : World V F S)
          → Sound w.tables
          → P w.tables
          → let (o, w') = next_outcome os w in Ends Q w.tables (fetch_answered (f w'.tables) o w')
      go [] w s p = (s, Grows-refl w.tables, h w.tables p)
      go (served ∷ r) w s p = (s, Grows-refl w.tables, h w.tables p)
      go (refused e ∷ r) w s p = (s, Grows-refl w.tables)
      go (unanswered e ∷ r) w s p = (s, Grows-refl w.tables)

  pub Safe-gets :
      (f : World V F S → A)
      → ((w : World V F S) → P w.tables → Q (f w) w.tables)
      → Safe P (gets f) Q
  unfolding gets
  Safe-gets f h = record { at = λ w s p. (s, Grows-refl w.tables, h w p) }

  pub Safe-lift :
      (r : Result A)
      → ((a : A) (t : Tables V F) → r ≡ ok a → P t → Q a t)
      → Safe {S = S} P (lift r) Q
  unfolding lift
  Safe-lift (ok a) h = record { at = λ w s p. (s, Grows-refl w.tables, h a w.tables refl p) }
  Safe-lift (err e) h = record { at = λ w s p. (s, Grows-refl w.tables) }

  -- The storage and the embedding service have no access to the tables.
  pub Safe-call :
      (f : S → Result A × S) → ((a : A) (t : Tables V F) → P t → Q a t) → Safe P (call f) Q
  unfolding call
  Safe-call f h = record { at = λ w s p. go (f w.store) w s p }
    where
      go :
          (end : Result A × S) (w : World V F S)
          → Sound w.tables
          → P w.tables
          → let (r, s) = end in Ends Q w.tables (r, record w { store = s })
      go (ok a, s') w s p = (s, Grows-refl w.tables, h a w.tables p)
      go (err e, s') w s p = (s, Grows-refl w.tables)

  -- A handler goes on from both results.
  pub Safe-attempt :
      (m : M (World V F S) A)
      → Safe P m Q
      → Safe P (attempt m) (λ r t. elim r [ ok a ↦ Q a t | err e ↦ Unit {0} ])
  unfolding attempt
  Safe-attempt m h = record { at = λ w s p. go (m w) w.tables (h.at w s p) }
    where
      go :
          (end : Result A × World V F S) (t : Tables V F)
          → Ends Q t end
          → let (r, w') = end in
            Ends (λ r t. elim r [ ok a ↦ Q a t | err e ↦ Unit {0} ]) t (ok r, w')
      go (ok a, w) t h = h
      go (err e, w) t h = (h.0, h.1, tt)

module _ {V F S A : Type 0} (P : Tables V F → Type 0) where
  pub Safe-attempt_call : (f : S → Result A × S) → Safe P (attempt (call f)) (λ r. P)
  unfolding attempt call
  Safe-attempt_call f = record { at = λ w s p. (s, Grows-refl w.tables, p) }

module _ {V F S : Type 0} {P : Tables V F → Type 0} {Q : Unit {0} → Tables V F → Type 0} where
  -- A transaction keeps its promise wherever it commits, whether or not its answer arrives.
  pub Safe-write :
      (f : Tables V F → Option (Tables V F))
      → ((t u : Tables V F) → Sound t → P t → f t ≡ some u → Sound u × Grows t u × Q tt u)
      → Safe {S = S} P (write f) Q
  unfolding write
  Safe-write f h = record { at = λ w s p. go w.outcomes w (f w.tables) refl s p }
    where
      go :
          (os : List Outcome) (w : World V F S) (written : Option (Tables V F))
          → f w.tables ≡ written
          → Sound w.tables
          → P w.tables
          → let (o, w') = next_outcome os w in Ends Q w.tables (write_answered o (f w'.tables) w')
      go [] w none e s p = rw e (s, Grows-refl w.tables)
      go [] w (some u) e s p = rw e (h w.tables u s p e)
      go (served ∷ r) w none e s p = rw e (s, Grows-refl w.tables)
      go (served ∷ r) w (some u) e s p = rw e (h w.tables u s p e)
      go (refused x ∷ r) w written e s p = (s, Grows-refl w.tables)
      go (unanswered x ∷ r) w none e s p = rw e (s, Grows-refl w.tables)
      go (unanswered x ∷ r) w (some u) e s p = rw e (let k = h w.tables u s p e in (k.0, k.1))

  -- The process's own state is outside the tables.
  pub Safe-modify :
      (f : World V F S → World V F S)
      → ((w : World V F S) → (f w).tables ≡ w.tables)
      → ((t : Tables V F) → P t → Q tt t)
      → Safe P (modify f) Q
  unfolding modify
  Safe-modify f same h = record { at = λ w s p. rw (same w) (s, Grows-refl w.tables, h w.tables p) }

module _ {V F S A B : Type 0} {P : Tables V F → Type 0} {Q : A → Tables V F → Type 0}
    {R : B → Tables V F → Type 0} where
  pub Safe-bind :
      (m : M (World V F S) A) (f : A → M (World V F S) B)
      → Safe P m Q
      → ((a : A) → Safe (Q a) (f a) R)
      → Safe P (m >>= f) R
  unfolding ◌>>=◌
  Safe-bind m f hm hf = record { at = λ w s p. go (m w) w.tables (hm.at w s p) }
    where
      later :
          (end : Result B × World V F S) (t u : Tables V F)
          → Grows t u
          → Ends R u end
          → Ends R t end
      later (ok b, w) t u g h = (h.0, Grows-trans t u w.tables g h.1, h.2)
      later (err e, w) t u g h = (h.0, Grows-trans t u w.tables g h.1)

      go :
          (end : Result A × World V F S) (t : Tables V F) → Ends Q t end → Ends R t (and_then f end)
      go (ok a, w) t h = later (f a w) t w.tables h.1 ((hf a).at w h.0 h.2)
      go (err e, w) t h = h

module _ {V F S A : Type 0} where
  -- What growth cannot undo may be carried across any action.
  pub Safe-frame :
      (P R : Tables V F → Type 0) (m : M (World V F S) A) (Q : A → Tables V F → Type 0)
      → ((t u : Tables V F) → Grows t u → R t → R u)
      → Safe P m Q
      → Safe (λ t. P t × R t) m (λ a t. Q a t × R t)
  Safe-frame P R m Q stable h = record { at = λ w s p. go (m w) w.tables p.1 (h.at w s p.0) }
    where
      go :
          (end : Result A × World V F S) (t : Tables V F)
          → R t
          → Ends Q t end
          → Ends (λ a t. Q a t × R t) t end
      go (ok a, w) t r h = (h.0, h.1, (h.2, stable t w.tables h.1 r))
      go (err e, w) t r h = h
