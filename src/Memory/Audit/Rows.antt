-- ===== src/Memory/Audit/Rows.antt =====
-- Look-ups in changed rows and in a longer history.
use surreal_memory_server.Common.{
  String, true, false, Option, none, some, List, [], ◌∷◌, ◌++◌, ◌+◌, ◌-◌, ◌==◌, eq_refl, ◌≡◌, refl,
  ap, ◌≤◌, Bool-cases, inl, inr, arith,
}
use surreal_memory_server.Memory.Rows.{Memory, History, has_id, find_row, replace_row, delete_row}
use surreal_memory_server.Memory.Update.{Edit, edited}
use surreal_memory_server.Memory.Expiry.Spared.{has_id-other}
use surreal_memory_server.Memory.Audit.{copies, latest, Agrees}

edited_id : (id : String) (e : Edit) (m : Memory) → has_id id (edited e m) ≡ has_id id m
unfolding has_id edited
edited_id id e m = refl

pub find-copies : (id : String) (rows : List Memory) → copies id rows ≡ 0 → find_row id rows ≡ none
unfolding copies find_row
find-copies id [] h = refl
find-copies id (m ∷ ms) h = elim (Bool-cases (has_id id m)) [
  | inl here ↦ let clash : copies id ms + 1 ≡ 0 = rw here at h in absurd (omega arith)
  | inr other ↦ rw other (find-copies id ms (rw other at h))
]

pub copies-find : (id : String) (rows : List Memory) → find_row id rows ≡ none → copies id rows ≡ 0
unfolding copies find_row
copies-find id [] h = refl
copies-find id (m ∷ ms) h = elim (Bool-cases (has_id id m)) [
  | inl here ↦ let clash : some m ≡ none = rw here at h in absurd (cc (clash))
  | inr other ↦ rw other (copies-find id ms (rw other at h))
]

pub copies-append_other :
    (id : String) (rows : List Memory) (m : Memory)
    → has_id id m ≡ false
    → copies id (rows ++ m ∷ []) ≡ copies id rows
unfolding copies
copies-append_other id [] m h = rw h refl
copies-append_other id (r ∷ rows) m h = ground (arith, copies-append_other id rows m h)

pub copies-append_self :
    (id : String) (rows : List Memory) (m : Memory)
    → has_id id m ≡ true
    → copies id (rows ++ m ∷ []) ≡ copies id rows + 1
unfolding copies
copies-append_self id [] m h = rw h refl
copies-append_self id (r ∷ rows) m h = ground (arith, copies-append_self id rows m h)

pub copies-replace :
    (id other : String) (e : Edit) (rows : List Memory)
    → copies id (replace_row other (edited e) rows) ≡ copies id rows
unfolding copies replace_row
copies-replace id other e [] = refl
copies-replace id other e (r ∷ rows) = elim (Bool-cases (has_id other r)) [
  | inl here ↦ rw (here, edited_id id e r) refl
  | inr else_row ↦ rw else_row (ground (arith, copies-replace id other e rows))
]

pub copies-delete :
    (id other : String) (rows : List Memory) → copies id (delete_row other rows) ≤ copies id rows
unfolding copies delete_row
copies-delete id other [] = omega arith
copies-delete id other (r ∷ rows) = ground (arith, copies-delete id other rows)

pub copies-delete_self :
    (id : String) (rows : List Memory) → copies id (delete_row id rows) ≡ copies id rows - 1
unfolding copies delete_row
copies-delete_self id [] = omega arith
copies-delete_self id (r ∷ rows) = elim (Bool-cases (has_id id r)) [
  | inl here ↦ rw here (omega arith)
  | inr other ↦ rw (other, other) (omega (arith, copies-delete_self id rows))
]

pub find-append :
    (id : String) (rows : List Memory) (m : Memory)
    → has_id id m ≡ false
    → find_row id (rows ++ m ∷ []) ≡ find_row id rows
unfolding find_row
find-append id [] m h = rw h refl
find-append id (r ∷ rows) m h = ground (arith, find-append id rows m)

pub find-append_self :
    (id : String) (rows : List Memory) (m : Memory)
    → has_id id m ≡ true
    → find_row id rows ≡ none
    → find_row id (rows ++ m ∷ []) ≡ some m
unfolding find_row
find-append_self id [] m h k = rw h refl
find-append_self id (r ∷ rows) m h k = elim (Bool-cases (has_id id r)) [
  | inl here ↦ let clash : some r ≡ none = rw here at k in absurd (cc (clash))
  | inr other ↦ rw other (find-append_self id rows m h (rw other at k))
]

pub find-replace_self :
    (id : String) (e : Edit) (rows : List Memory) (m : Memory)
    → find_row id rows ≡ some m
    → find_row id (replace_row id (edited e) rows) ≡ some (edited e m)
unfolding find_row replace_row
find-replace_self id e [] m h = absurd (cc (h))
find-replace_self id e (r ∷ rows) m h = elim (Bool-cases (has_id id r)) [
  | inl here ↦
      let same : r ≡ m = cc (rw here at h) in
      rw (here, edited_id id e r, here) (ap (λ n. some (edited e n)) same)
  | inr other ↦ rw (other, other) (find-replace_self id e rows m (rw other at h))
]

pub find-replace :
    (id other : String) (e : Edit) (rows : List Memory)
    → (other == id) ≡ false
    → find_row id (replace_row other (edited e) rows) ≡ find_row id rows
unfolding find_row replace_row
find-replace id other e [] h = refl
find-replace id other e (r ∷ rows) h = elim (Bool-cases (has_id other r)) [
  | inl here ↦ rw (here, edited_id id e r, has_id-other other id r here h) refl
  | inr else_row ↦ rw else_row (ground (arith, find-replace id other e rows))
]

latest-append :
    (id : String) (hs : List History) (h : History)
    → h.memory_id ≡ id
    → latest id (hs ++ h ∷ []) ≡ some h
unfolding latest
latest-append id [] h same = rw (same, eq_refl id) refl
latest-append id (k ∷ hs) h same = rw (latest-append id hs h same, latest) refl

latest-append_other :
    (id : String) (hs : List History) (h : History)
    → (h.memory_id == id) ≡ false
    → latest id (hs ++ h ∷ []) ≡ latest id hs
unfolding latest
latest-append_other id [] h other = rw other refl
latest-append_other id (k ∷ hs) h other = rw (latest-append_other id hs h other, latest) refl

-- A row agrees with a history that ends in its entry, and with one that ends in another id's.
pub Agrees-append :
    (id : String) (m : Memory) (hs : List History) (h : History)
    → h.memory_id ≡ id
    → h.version ≡ m.version
    → h.new_content ≡ m.content
    → Agrees (some m) (latest id (hs ++ h ∷ []))
Agrees-append id m hs h same v c = rw (latest-append id hs h same, Agrees) (v, c)

pub Agrees-append_other :
    (id : String) (r : Option Memory) (hs : List History) (h : History)
    → (h.memory_id == id) ≡ false
    → Agrees r (latest id hs)
    → Agrees r (latest id (hs ++ h ∷ []))
Agrees-append_other id r hs h other agree = rw (latest-append_other id hs h other) agree
