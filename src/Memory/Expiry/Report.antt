-- ===== src/Memory/Expiry/Report.antt =====
-- The report of a sweep adds up.
use surreal_memory_server.Common.{
  ℕ, suc, String, Bool, true, false, Option, none, some, List, [], ◌∷◌, ◌+◌, length, take, ◌≡◌,
  refl, ◌∙◌, ◌≤◌, arith, zero,
}
use surreal_memory_server.Memory.Rows.{Memory, Store}
use surreal_memory_server.Memory.Expiry.{
  SweepReport, Fate, injected, refused, unanswered, answered, sweep_one, sweep_rows, sweep_expired,
  select_expired, delete_if_still_expired, count_done, fate_of, later_fates,
}

abbrev total : SweepReport → ℕ
total r = r.removed + r.skipped + r.failed

sweep_one-total :
    (id : Option String) (fate : Fate) (cutoff : ℕ) (r : SweepReport) (s : Store)
    → (total (sweep_one id fate cutoff (r, s)).0 ≡ total r + 1)
      × ((sweep_one id fate cutoff (r, s)).0.selected ≡ r.selected)
unfolding sweep_one
sweep_one-total none fate cutoff r s = (omega arith, refl)
sweep_one-total (some id) injected cutoff r s = (omega arith, refl)
sweep_one-total (some id) (refused others) cutoff r s = (omega arith, refl)
sweep_one-total (some id) (unanswered others) cutoff r s = (omega arith, refl)
sweep_one-total (some id) (answered others) cutoff r s =
    by_answer (delete_if_still_expired id cutoff (others s)).0
  where
    by_answer :
        (b : Bool)
        → (total (count_done b r) ≡ total r + 1) × ((count_done b r).selected ≡ r.selected)
    by_answer true = (omega arith, refl)
    by_answer false = (omega arith, refl)

sweep_rows-total :
    (rows : List Memory) (fates : List Fate) (cutoff : ℕ) (found : SweepReport × Store)
    → (total (sweep_rows rows fates cutoff found).0 ≡ total found.0 + length rows)
      × ((sweep_rows rows fates cutoff found).0.selected ≡ found.0.selected)
unfolding sweep_rows
sweep_rows-total [] fates cutoff found = (omega arith, refl)
sweep_rows-total (m ∷ ms) fates cutoff found =
    let (one, kept) = sweep_one-total m.id (fate_of fates) cutoff found.0 found.1 in
    let (rest, kept') =
      sweep_rows-total ms (later_fates fates) cutoff
        (sweep_one m.id (fate_of fates) cutoff found) in
    (omega arith, kept' ∙ kept)

length-take {ℓ} : {A : Type ℓ} (n : ℕ) (xs : List A) → length (take n xs) ≤ n
length-take zero xs = omega arith
length-take (suc n) [] = omega arith
length-take (suc n) (x ∷ xs) = omega (arith, length-take n xs)

select_expired-length : (cutoff : ℕ) (s : Store) → length (select_expired cutoff s) ≤ 1000
unfolding select_expired
select_expired-length cutoff s = length-take 1000 _

-- Whatever happens to the deletions and whatever others do between them, the rows that a sweep
-- selected are the rows it removed, skipped and failed to delete, at most a batch of 1000.
pub sweep_expired-total :
    (cutoff : ℕ) (fates : List Fate) (s : Store)
    → let r : SweepReport = (sweep_expired cutoff fates s).0 in
      (r.selected ≡ r.removed + r.skipped + r.failed) × (r.selected ≤ 1000)
unfolding sweep_expired
sweep_expired-total cutoff fates s =
    let rows : List Memory = select_expired cutoff s in
    let start : SweepReport = record {
      selected = length rows;
      removed = 0;
      skipped = 0;
      failed = 0;
    } in
    let (adds_up, kept) = sweep_rows-total rows fates cutoff (start, s) in
    (omega arith, omega (arith, select_expired-length cutoff s))
