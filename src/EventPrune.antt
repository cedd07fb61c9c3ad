-- ===== src/EventPrune.antt =====
-- internal/eventprune/eventprune.go: one pass of the pruning of updater_events.
-- The table is the list of its rows in the order of the primary key, in which InnoDB deletes them.
pub mod Passes
pub mod Retention
mod Examples
use emly_go_api.Base.{
  ℕ, suc, zero, ◌+◌, ◌-◌, Bool, true, false, ◌&&◌, Option, none, some, List, [], ◌∷◌, if◌then◌else◌,
  ltb, leb,
}

pub record Event : Type 0 where
  pub id : ℕ
  pub created_at : ℕ

abbrev pub batch_size : ℕ
batch_size = 5000

-- SELECT id … WHERE created_at >= ? ORDER BY id ASC LIMIT 1
unfoldable pub first_since : ℕ → List Event → Option ℕ
first_since cutoff [] = none
first_since cutoff (e ∷ es) =
    let rest = first_since cutoff es in if leb cutoff e.created_at then some e.id else rest

-- COALESCE(MAX(id), 0)
unfoldable pub max_id : List Event → ℕ
max_id [] = 0
max_id (e ∷ es) = let rest = max_id es in if ltb rest e.id then e.id else rest

-- firstKeptID
unfoldable pub first_kept_id : ℕ → List Event → ℕ
unfolding first_since max_id
first_kept_id cutoff es = elim (first_since cutoff es) [ none ↦ max_id es + 1 | some id ↦ id ]

-- DELETE … WHERE id < ? LIMIT ?: the rows that are left, and the number of those that are gone.
unfoldable pub left_over : ℕ → ℕ → List Event → List Event
left_over bound zero es = es
left_over bound (suc limit) [] = []
left_over bound (suc limit) (e ∷ es) =
    let gone = left_over bound limit es in
    let kept = left_over bound (suc limit) es in if ltb e.id bound then gone else e ∷ kept

unfoldable pub affected : ℕ → ℕ → List Event → ℕ
affected bound zero es = 0
affected bound (suc limit) [] = 0
affected bound (suc limit) (e ∷ es) =
    let gone = affected bound limit es in
    let kept = affected bound (suc limit) es in if ltb e.id bound then suc gone else kept

-- What happens in one round of the loop: the statement fails, its count cannot be read, or the
-- context is done in the pause.
pub record Round : Type 0 where
  pub exec_fails : Bool
  pub count_fails : Bool
  pub cancelled : Bool

-- The number of rows that Run reports, with or without an error. `out_of_fuel` is no result of Run.
pub data Outcome : Type 0 where
  removed : ℕ → Outcome
  failed : ℕ → Outcome
  out_of_fuel : Outcome

-- The loop of Run, for as many rounds as there is fuel; `rounds` gives what happens in each.
unfoldable pub prune_loop : ℕ → (ℕ → Round) → ℕ → ℕ → List Event → Outcome × List Event
unfolding left_over affected
prune_loop zero rounds bound total es = (out_of_fuel, es)
prune_loop (suc fuel) rounds bound total es =
    let es' = left_over bound batch_size es in
    let n = affected bound batch_size es in
    let rest = prune_loop fuel rounds bound (total + n) es' in
    if (rounds fuel).exec_fails
    then (failed total, es)
    else if (rounds fuel).count_fails
    then (failed total, es')
    else if ltb n batch_size
    then (removed (total + n), es')
    else if (rounds fuel).cancelled
    then (failed (total + n), es')
    else rest

-- Run; `unreadable` is a failure of the query for the first kept row.
unfoldable pub run : ℕ → Bool → (ℕ → Round) → ℕ → List Event → Outcome × List Event
unfolding prune_loop first_kept_id
run fuel unreadable rounds cutoff es =
    if unreadable
    then (failed 0, es)
    else if leb (first_kept_id cutoff es) 1
    then (removed 0, es)
    else prune_loop fuel rounds (first_kept_id cutoff es) 0 es
