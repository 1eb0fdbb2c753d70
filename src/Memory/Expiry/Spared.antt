-- ===== src/Memory/Expiry/Spared.antt =====
-- A sweep deletes expired rows only.
use surreal_memory_server.Common.{
  ℕ, String, Bool, true, false, Option, none, some, List, [], ◌∷◌, All, ◌==◌, eq_iff, ◌≡◌, refl,
  sym, ap, subst, ◌∙◌, inl, inr, Bool-cases,
}
use surreal_memory_server.Memory.Rows.{Memory, Store, has_id, find_row, is_expired_at, delete_row}
use surreal_memory_server.Memory.Expiry.{
  SweepReport, Fate, injected, refused, unanswered, answered, expire, delete_if_still_expired,
  sweep_one, sweep_rows, sweep_expired, select_expired,
}

named : String → Option String → Bool
named id none = false
named id (some i) = i == id

has_id-named : (id : String) (m : Memory) → has_id id m ≡ named id m.id
unfolding has_id named
has_id-named id m = by_id m.id
  where
    by_id : (o : Option String) → (elim o [ some i ↦ i == id | none ↦ false ]) ≡ named id o
    by_id none = refl
    by_id (some i) = refl

named_once :
    (id other : String) (o : Option String)
    → named id o ≡ true
    → (id == other) ≡ false
    → named other o ≡ false
unfolding named
named_once id other none h k = absurd (cc (h))
named_once id other (some i) h k = let same : i ≡ id = (eq_iff i id).0 h in rw same k

pub has_id-other :
    (id other : String) (m : Memory)
    → has_id id m ≡ true
    → (id == other) ≡ false
    → has_id other m ≡ false
has_id-other id other m h k =
    has_id-named other m ∙ named_once id other m.id (sym (has_id-named id m) ∙ h) k

-- Another id's row stays when a row is deleted.
pub find-delete_row :
    (id other : String) (rows : List Memory)
    → (id == other) ≡ false
    → find_row other (delete_row id rows) ≡ find_row other rows
unfolding find_row delete_row
find-delete_row id other [] h = refl
find-delete_row id other (r ∷ rest) h = elim (Bool-cases (has_id id r)) [
  | inl here ↦ rw (here, has_id-other id other r here h) refl
  | inr else_row ↦ elim (Bool-cases (has_id other r)) [
    | inl there ↦ rw (else_row, there) refl
    | inr no_row ↦ rw (else_row, no_row) (find-delete_row id other rest h)
  ]
]

expire_gone :
    (id : String) (cutoff : ℕ) (s : Store) → find_row id s.memories ≡ none → expire id cutoff s ≡ s
unfolding expire
expire_gone id cutoff s at = rw (at, expire) refl

expire_live :
    (id : String) (cutoff : ℕ) (s : Store) (n : Memory)
    → find_row id s.memories ≡ some n
    → is_expired_at n cutoff ≡ false
    → expire id cutoff s ≡ s
unfolding expire
expire_live id cutoff s n at live = rw (at, expire, live) refl

expire_late :
    (id : String) (cutoff : ℕ) (s : Store) (n : Memory)
    → find_row id s.memories ≡ some n
    → is_expired_at n cutoff ≡ true
    → (expire id cutoff s).memories ≡ delete_row id s.memories
unfolding expire
expire_late id cutoff s n at late = rw (at, expire, late) refl

-- A row that is not expired at the cutoff stays, whichever row the transaction is about.
expire-Spares :
    (id other : String) (cutoff : ℕ) (s : Store) (m : Memory) (r : Option Memory)
    → find_row id s.memories ≡ r
    → find_row other s.memories ≡ some m
    → is_expired_at m cutoff ≡ false
    → find_row other (expire id cutoff s).memories ≡ some m
expire-Spares id other cutoff s m none at h live = rw (expire_gone id cutoff s at) h
expire-Spares id other cutoff s m (some n) at h live = elim (Bool-cases (is_expired_at n cutoff)) [
  | inr not_yet ↦ rw (expire_live id cutoff s n at not_yet) h
  | inl late ↦ elim (Bool-cases (id == other)) [
    | inr elsewhere ↦
        rw (expire_late id cutoff s n at late) (find-delete_row id other s.memories elsewhere ∙ h)
    | inl same ↦
        let it : id ≡ other = (eq_iff id other).0 same in
        let there : find_row other s.memories ≡ some n =
          subst (λ i. find_row i s.memories ≡ some n) it at in
        let one : n ≡ m = cc (sym there ∙ h) in
        let clash : true ≡ false = sym late ∙ ap (λ k. is_expired_at k cutoff) one ∙ live in
        absurd (cc (clash))
  ]
]

module _ (other : String) (m : Memory) where
  abbrev pub Has : Store → Type 0
  Has s = find_row other s.memories ≡ some m

  -- What others do to the tables leaves the row.
  abbrev pub Spares : Fate → Type 0
  Spares injected = Unit
  Spares (refused others) = (s : Store) → Has s → Has (others s)
  Spares (unanswered others) = (s : Store) → Has s → Has (others s)
  Spares (answered others) = (s : Store) → Has s → Has (others s)

  module _ (cutoff : ℕ) (live : is_expired_at m cutoff ≡ false) where
    sweep_one-Spares :
        (id : Option String) (fate : Fate) (r : SweepReport) (s : Store)
        → Spares fate
        → Has s
        → Has (sweep_one id fate cutoff (r, s)).1
    unfolding sweep_one delete_if_still_expired
    sweep_one-Spares none fate r s k h = h
    sweep_one-Spares (some id) injected r s k h = h
    sweep_one-Spares (some id) (refused others) r s k h = k s h
    sweep_one-Spares (some id) (unanswered others) r s k h =
        expire-Spares id other cutoff (others s) m _ refl (k s h) live
    sweep_one-Spares (some id) (answered others) r s k h =
        expire-Spares id other cutoff (others s) m _ refl (k s h) live

    sweep_rows-Spares :
        (rows : List Memory) (fates : List Fate) (found : SweepReport × Store)
        → All Spares fates
        → Has found.1
        → Has (sweep_rows rows fates cutoff found).1
    unfolding sweep_rows
    sweep_rows-Spares [] fates found all h = h
    sweep_rows-Spares (n ∷ rows) [] found all h =
        sweep_rows-Spares rows [] _ tt
          (sweep_one-Spares n.id (answered (λ s. s)) found.0 found.1 (λ s k. k) h)
    sweep_rows-Spares (n ∷ rows) (f ∷ fs) found all h =
        sweep_rows-Spares rows fs _ all.1 (sweep_one-Spares n.id f found.0 found.1 all.0 h)

    -- A memory that is not expired at the cutoff, and that the other callers leave, is still there
    -- after a sweep, whatever happens to the sweep's deletions.
    pub sweep_expired-Spares :
        (fates : List Fate) (s : Store)
        → All Spares fates
        → find_row other s.memories ≡ some m
        → find_row other (sweep_expired cutoff fates s).1.memories ≡ some m
    unfolding sweep_expired
    sweep_expired-Spares fates s all h = sweep_rows-Spares (select_expired cutoff s) fates _ all h
