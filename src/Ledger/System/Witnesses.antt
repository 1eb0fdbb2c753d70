-- ===== src/Ledger/System/Witnesses.antt =====
-- The theorems on reached ledgers at a concrete run.
use surreal_memory_server.Common.{String, refl, some, List, [], ◌∷◌, All}
use surreal_memory_server.Ledger.State.{is_terminal}
use surreal_memory_server.Ledger.Queries.{find, events_of}
use surreal_memory_server.Ledger.Journal.{History, state_of, sequence_of}
use surreal_memory_server.Ledger.Sound.{IsCommitted}
use surreal_memory_server.Ledger.System.{Call, run, retrial, rejection}
use surreal_memory_server.Ledger.System.Examples.{
  naturals, sample, calls, answers, end, memory, memory_found,
}
use surreal_memory_server.Ledger.System.Reached.{
  SameOutcome, SameSubmission, outcomes_are_final, events-History, dependencies_come_first,
  submissions_are_kept,
}

abbrev later : List (Call String)
later = rejection "memory" "mistake" ∷ retrial "memory" ∷ calls

outcomes_are_final_example :
    SameOutcome memory (find "memory" (run sample naturals some later end).tables.operations)
unfolding is_terminal
outcomes_are_final_example =
    outcomes_are_final sample naturals some (λ a b e. e) answers tt calls later "memory" memory
      memory_found refl

events-History_example :
    History
      (events_of "memory" end.tables.events)
      (state_of (find "memory" end.tables.operations))
      (sequence_of (find "memory" end.tables.operations))
events-History_example = events-History sample naturals some (λ a b e. e) answers tt calls "memory"

dependencies_come_first_example : All (IsCommitted end.tables) ("stream" ∷ [])
dependencies_come_first_example =
    dependencies_come_first sample naturals some (λ a b e. e) answers tt calls "memory" memory
      memory_found refl

submissions_are_kept_example :
    SameSubmission memory (find "memory" (run sample naturals some later end).tables.operations)
submissions_are_kept_example =
    submissions_are_kept sample naturals some (λ a b e. e) answers tt calls later "memory" memory
      memory_found
