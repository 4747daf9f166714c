-- ===== src/Stream/Examples.antt =====
-- Two events with a flush between them.
use vibe_go.Base.{◌≡◌, List, [], ◌∷◌}
use vibe_go.Stream.{new, flush}
use vibe_go.Stream.Batches.{Action, pushes, flushes, run, pushed, delivered, run-flush}

abbrev actions : List Action
actions =
    pushes (record { id = "a"; seq = 1 }) "he"
    ∷ flushes
    ∷ pushes (record { id = "b"; seq = 2 }) "llo"
    ∷ []

run-flush_example :
    (delivered (flush (run actions new)).flushed ≡ pushed actions)
    × ((flush (run actions new)).events ≡ [])
run-flush_example = run-flush actions
