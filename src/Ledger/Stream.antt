-- ===== src/Ledger/Stream.antt =====
-- The stream of an operation's events: `events_after` and `event_stream` of src/operations.rs. The
-- receiver is subscribed before the history is read; what it then receives is a sequence.
pub mod Order
use surreal_memory_server.Common.{
  ℕ, String, Bool, true, false, Option, none, some, List, [], ◌∷◌, ◌++◌, ◌==◌, ◌&&◌, leb, ltb, keep,
  if◌then◌else◌,
}
use surreal_memory_server.Common.Sort.{sort_by}
use surreal_memory_server.Ledger.Types.{Event, Error}
use surreal_memory_server.Ledger.Monad.{Result, ok, err}

-- `… WHERE operation_id = $id AND sequence > $sequence ORDER BY sequence ASC`.
unfoldable pub events_after : String → ℕ → List Event → List Event
events_after id after es =
    sort_by (λ a b. leb a.sequence b.sequence)
      (keep (λ e. e.operation_id == id && ltb after e.sequence) es)

-- What `recv` returns: an event, or that some were missed, with the answer of the database to the
-- query that this makes: its events, or an error, which ends the stream.
pub data Received : Type 0 where
  live : Event → Received
  lagged : Result (List Event) → Received
  closed : Received

-- `for event in history { if event.sequence > last_sequence { … yield event } }`: the events that it
-- yields.
unfoldable pub newer : ℕ → List Event → List Event
newer last [] = []
newer last (e ∷ es) =
    let later = newer e.sequence es in
    let same = newer last es in if ltb last e.sequence then e ∷ later else same

-- `last_sequence` after the loop.
unfoldable pub last_of : ℕ → List Event → ℕ
last_of last [] = last
last_of last (e ∷ es) =
    let later = last_of e.sequence es in
    let same = last_of last es in if ltb last e.sequence then later else same

-- The loop on the receiver.
unfoldable pub follow : String → ℕ → List Received → List Event
unfolding newer last_of events_after
follow id last [] = []
follow id last (live e ∷ rs) =
    let taken = follow id e.sequence rs in
    let left = follow id last rs in
    if e.operation_id == id && ltb last e.sequence then e ∷ taken else left
follow id last (lagged (err e) ∷ rs) = []
follow id last (lagged (ok es) ∷ rs) =
    newer last (events_after id last es) ++ follow id (last_of last (events_after id last es)) rs
follow id last (closed ∷ rs) = []

-- The events that the stream yields; `es` are those in the database when the history is read.
unfoldable pub event_stream : String → ℕ → List Event → List Received → List Event
unfolding follow
event_stream id after es rs =
    newer after (events_after id after es)
    ++ follow id (last_of after (events_after id after es)) rs
