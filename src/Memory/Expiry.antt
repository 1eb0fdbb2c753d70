-- ===== src/Memory/Expiry.antt =====
-- The sweep of expired memories: crates/surreal-memory/src/storage/surreal/expiry.rs.
pub mod Report
pub mod Spared
use surreal_memory_server.Common.{
  ℕ, String, Bool, true, false, ◌&&◌, Option, none, some, List, [], ◌∷◌, ◌+◌, any, keep, take,
  length, eqb, leb, ◌==◌, if◌then◌else◌,
}
use surreal_memory_server.Common.Sort.{sort_by}
use surreal_memory_server.Memory.Rows.{
  Memory, History, ChangeType, deleted, Store, find_row, is_expired_at, delete_row, log_deleted,
}

abbrev pub sweep_batch : ℕ
sweep_batch = 1000

pub record SweepReport : Type 0 where
  pub selected : ℕ
  pub removed : ℕ
  pub skipped : ℕ
  pub failed : ℕ

-- What happens to one deletion: a fault is injected; the transaction is refused; it takes effect and
-- the count of its audit row is not answered; or all is answered. Others act before it.
pub data Fate : Type 0 where
  injected : Fate
  refused : (Store → Store) → Fate
  unanswered : (Store → Store) → Fate
  answered : (Store → Store) → Fate

unfoldable pub is_deleted : ChangeType → Bool
is_deleted deleted = true
is_deleted _ = false

-- The transaction.
unfoldable pub expire : String → ℕ → Store → Store
unfolding find_row is_expired_at delete_row
expire id cutoff s = elim (find_row id s.memories) [
  | none ↦ s
  | some m ↦
      if is_expired_at m cutoff
      then record s {
        memories = delete_row id s.memories;
        history = log_deleted id m cutoff s.history;
      }
      else s
]

-- The audit row of a deletion at a cutoff.
unfoldable pub has_marker : String → ℕ → Store → Bool
unfolding is_deleted
has_marker id cutoff s =
    any (λ h. h.memory_id == id && is_deleted h.change_type && eqb h.changed_at cutoff) s.history

unfoldable pub delete_if_still_expired : String → ℕ → Store → Bool × Store
unfolding expire has_marker
delete_if_still_expired id cutoff s = let s' = expire id cutoff s in (has_marker id cutoff s', s')

abbrev pub is_before : Option ℕ → Option ℕ → Bool
is_before none b = true
is_before (some a) none = false
is_before (some a) (some b) = leb a b

unfoldable pub select_expired : ℕ → Store → List Memory
unfolding sort_by is_expired_at
select_expired cutoff s = take sweep_batch (
    sort_by (λ m n. is_before m.valid_until n.valid_until)
      (keep (λ m. is_expired_at m cutoff) s.memories))

abbrev pub count_failed : SweepReport → SweepReport
count_failed r = record r { failed = r.failed + 1 }

abbrev pub count_done : Bool → SweepReport → SweepReport
count_done true r = record r { removed = r.removed + 1 }
count_done false r = record r { skipped = r.skipped + 1 }

unfoldable pub sweep_one : Option String → Fate → ℕ → SweepReport × Store → SweepReport × Store
unfolding expire delete_if_still_expired
sweep_one none fate cutoff (r, s) = (count_failed r, s)
sweep_one (some id) injected cutoff (r, s) = (count_failed r, s)
sweep_one (some id) (refused others) cutoff (r, s) = (count_failed r, others s)
sweep_one (some id) (unanswered others) cutoff (r, s) =
    (count_failed r, expire id cutoff (others s))
sweep_one (some id) (answered others) cutoff (r, s) =
    let (removed, s') = delete_if_still_expired id cutoff (others s) in (count_done removed r, s')

-- A deletion with no fate given is answered, with no other caller before it.
abbrev pub fate_of : List Fate → Fate
fate_of [] = answered (λ s. s)
fate_of (f ∷ fs) = f

abbrev pub later_fates : List Fate → List Fate
later_fates [] = []
later_fates (f ∷ fs) = fs

unfoldable pub sweep_rows : List Memory → List Fate → ℕ → SweepReport × Store → SweepReport × Store
unfolding sweep_one
sweep_rows [] fates cutoff found = found
sweep_rows (m ∷ ms) fates cutoff found =
    sweep_rows ms (later_fates fates) cutoff (sweep_one m.id (fate_of fates) cutoff found)

unfoldable pub sweep_expired : ℕ → List Fate → Store → SweepReport × Store
unfolding select_expired sweep_rows
sweep_expired cutoff fates s =
    let expired = select_expired cutoff s in
    sweep_rows expired fates cutoff
      (record { selected = length expired; removed = 0; skipped = 0; failed = 0 }, s)
