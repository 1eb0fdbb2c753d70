-- ===== src/Codecs/Examples.antt =====
-- The theorem on the codecs at one text.
use surreal_memory_server.Common.{some, ok, ◌≡◌, ◌↔◌}
use surreal_memory_server.Ledger.State
use surreal_memory_server.Compression.Status
use surreal_memory_server.Mindmap
use surreal_memory_server.Mindmap.{tree}
use surreal_memory_server.Tasks.Step
use surreal_memory_server.Tasks.Step.{completed}
use surreal_memory_server.Tasks.Stream
use surreal_memory_server.Tasks.Stream.{paused}
use surreal_memory_server.Codecs.{parsers_iff}

parsers_iff_example :
    ((State.parse_state "completed" ≡ some State.committed)
      ↔ ("completed" ≡ State.as_str State.committed))
    × ((Status.parse "completed" ≡ some Status.promoted)
        ↔ ("completed" ≡ Status.as_str Status.promoted))
    × ((Mindmap.parse_str "completed" ≡ ok tree) ↔ ("completed" ≡ Mindmap.as_str tree))
    × ((Step.parse_str "completed" ≡ ok completed) ↔ ("completed" ≡ Step.as_str completed))
    × ((Stream.parse_str "completed" ≡ ok paused) ↔ ("completed" ≡ Stream.as_str paused))
parsers_iff_example = parsers_iff "completed" State.committed Status.promoted tree completed paused
