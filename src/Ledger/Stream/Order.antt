-- ===== src/Ledger/Stream/Order.antt =====
-- The order of the events that `event_stream` yields.
use surreal_memory_server.Common.{
  ℕ, ◌<◌, String, List, [], ◌∷◌, ◌++◌, ◌==◌, ◌&&◌, ltb, ltb→lt, Bool-cases, inl, inr, arith,
}
use surreal_memory_server.Ledger.Types.{Event}
use surreal_memory_server.Ledger.Monad.{ok, err}
use surreal_memory_server.Ledger.Stream.{
  Received, live, lagged, closed, events_after, newer, last_of, follow, event_stream,
}

-- The events rise in sequence number, from above `n` on.
abbrev pub Rising : ℕ → List Event → Type 0
Rising n [] = Unit
Rising n (e ∷ es) = (n < e.sequence) × Rising e.sequence es

Rising-append :
    (n : ℕ) (es rest : List Event) → Rising (last_of n es) rest → Rising n (newer n es ++ rest)
unfolding newer last_of
Rising-append n [] rest h = h
Rising-append n (e ∷ es) rest h = go (Rising-append e.sequence es rest) (Rising-append n es rest)
  where
    go :
        (Rising (last_of e.sequence es) rest → Rising e.sequence (newer e.sequence es ++ rest))
        → (Rising (last_of n es) rest → Rising n (newer n es ++ rest))
        → Rising n (newer n (e ∷ es) ++ rest)
    go later same = elim (Bool-cases (ltb n e.sequence)) [
      | inl b ↦ rw b (ltb→lt n e.sequence b, later (rw b at h))
      | inr b ↦ rw b (same (rw b at h))
    ]

follow-Rising : (id : String) (n : ℕ) (rs : List Received) → Rising n (follow id n rs)
unfolding follow
follow-Rising id n [] = tt
follow-Rising id n (live e ∷ rs) = go (follow-Rising id e.sequence rs) (follow-Rising id n rs)
  where
    go :
        Rising e.sequence (follow id e.sequence rs)
        → Rising n (follow id n rs)
        → Rising n (follow id n (live e ∷ rs))
    go taken left = elim (Bool-cases (e.operation_id == id && ltb n e.sequence)) [
      | inl b ↦ rw b (ground (arith, b), taken)
      | inr b ↦ rw b left
    ]
follow-Rising id n (lagged (err e) ∷ rs) = tt
follow-Rising id n (lagged (ok es) ∷ rs) =
    Rising-append n (events_after id n es) _
      (follow-Rising id (last_of n (events_after id n es)) rs)
follow-Rising id n (closed ∷ rs) = tt

-- Whatever the receiver gets, in whatever order, repeated or missed, the stream yields events whose
-- sequence numbers rise strictly, from above the one that was asked for.
pub event_stream-Rising :
    (id : String) (after : ℕ) (es : List Event) (rs : List Received)
    → Rising after (event_stream id after es rs)
unfolding event_stream
event_stream-Rising id after es rs =
    Rising-append after (events_after id after es) _
      (follow-Rising id (last_of after (events_after id after es)) rs)
