-- ===== src/EventPrune/Examples.antt =====
-- Three events, the first of which is out of the window.
use emly_go_api.Base.{ℕ, ◌+◌, true, false, [], ◌∷◌, ◌≡◌, arith, length, List}
use emly_go_api.EventPrune.{Event, Round, removed, prune_loop, run}
use emly_go_api.EventPrune.Passes.{kept, quiet, prune_loop-kept}
use emly_go_api.EventPrune.Retention.{IsInOrder, since, run-since}

abbrev events : List Event
events =
    record { id = 3; created_at = 10 }
    ∷ record { id = 4; created_at = 20 }
    ∷ record { id = 7; created_at = 30 }
    ∷ []

events-IsInOrder : IsInOrder events
events-IsInOrder = (
  omega arith,
  ((omega arith, omega arith), ((omega arith, omega arith), tt)),
  (omega arith, ((omega arith, omega arith), tt), (omega arith, tt, tt)),
)

abbrev failing : ℕ → Round
failing i = record { exec_fails = false; count_fails = true; cancelled = false }

prune_loop-kept_example : kept 4 (prune_loop 2 failing 4 0 events).1 ≡ kept 4 events
prune_loop-kept_example = prune_loop-kept 2 failing 4 0 events

run-since_example :
    (n : ℕ) × (run 1 false quiet 20 events ≡ (removed n, since 20 events))
    × (n + length (since 20 events) ≡ length events)
run-since_example = run-since 1 20 events events-IsInOrder (omega arith)
