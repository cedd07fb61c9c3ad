-- ===== src/EventPrune/Passes.antt =====
-- What the loop of deletions removes, and that it ends.
use emly_go_api.Base.{
  ℕ, suc, zero, ◌+◌, ◌*◌, ◌<◌, true, false, List, [], ◌∷◌, if◌then◌else◌, ltb, ◌≡◌, refl, arith,
  Bool-cases, inl, inr, if-intro, ◌∙◌,
}
use emly_go_api.EventPrune.{
  Event, batch_size, left_over, affected, Round, Outcome, removed, prune_loop,
}

abbrev pub kept : ℕ → List Event → List Event
kept bound [] = []
kept bound (e ∷ es) = let rest = kept bound es in if ltb e.id bound then rest else e ∷ rest

abbrev pub count : ℕ → List Event → ℕ
count bound [] = 0
count bound (e ∷ es) = let rest = count bound es in if ltb e.id bound then suc rest else rest

kept-left_over :
    (bound limit : ℕ) (es : List Event) → kept bound (left_over bound limit es) ≡ kept bound es
unfolding left_over
kept-left_over bound zero es = refl
kept-left_over bound (suc limit) [] = refl
kept-left_over bound (suc limit) (e ∷ es) =
    ground (arith, kept-left_over bound limit es, kept-left_over bound (suc limit) es)

count-left_over :
    (bound limit : ℕ) (es : List Event)
    → count bound (left_over bound limit es) + affected bound limit es ≡ count bound es
unfolding left_over affected
count-left_over bound zero es = omega arith
count-left_over bound (suc limit) [] = refl
count-left_over bound (suc limit) (e ∷ es) =
    ground (arith, count-left_over bound limit es, count-left_over bound (suc limit) es)

-- A batch that is not full has left no row to remove.
left_over-kept :
    (bound limit : ℕ) (es : List Event)
    → affected bound limit es < limit
    → left_over bound limit es ≡ kept bound es
unfolding left_over affected
left_over-kept bound zero es h = elim h [ ]
left_over-kept bound (suc limit) [] h = refl
left_over-kept bound (suc limit) (e ∷ es) h =
    ground (arith, left_over-kept bound limit es, left_over-kept bound (suc limit) es)

count-kept : (bound : ℕ) (es : List Event) → count bound (kept bound es) ≡ 0
count-kept bound [] = refl
count-kept bound (e ∷ es) = ground (arith, count-kept bound es)

-- Whatever fails or is cancelled, and however many rounds run, no row at or above the bound goes.
pub prune_loop-kept :
    (fuel : ℕ) (rounds : ℕ → Round) (bound total : ℕ) (es : List Event)
    → kept bound (prune_loop fuel rounds bound total es).1 ≡ kept bound es
unfolding prune_loop
prune_loop-kept zero rounds bound total es = refl
prune_loop-kept (suc fuel) rounds bound total es =
    let same = kept-left_over bound batch_size es in
    let P : Outcome × List Event → Type 0 = λ r. kept bound r.1 ≡ kept bound es in
    if-intro P (rounds fuel).exec_fails _ _ refl (
      if-intro P (rounds fuel).count_fails _ _ same (
        if-intro P (ltb (affected bound batch_size es) batch_size) _ _ same (
          if-intro P (rounds fuel).cancelled _ _ same (
            prune_loop-kept fuel rounds bound (total + affected bound batch_size es)
              (left_over bound batch_size es)
            ∙ same))))

abbrev pub quiet : ℕ → Round
quiet i = record { exec_fails = false; count_fails = false; cancelled = false }

-- Without a failure, more rounds than there are full batches of rows below the bound are enough: the
-- loop then ends, removes all of these rows and no other, and reports their number.
pub prune_loop-removed :
    (fuel bound total : ℕ) (es : List Event)
    → count bound es < fuel * batch_size
    → prune_loop fuel quiet bound total es ≡ (removed (total + count bound es), kept bound es)
unfolding prune_loop
prune_loop-removed zero bound total es h = cc (none_below h)
  where
    none_below : {n : ℕ} → n < 0 → true ≡ false
    none_below h = elim h [ ]
prune_loop-removed (suc fuel) bound total es h =
    let n = affected bound batch_size es in
    let es' = left_over bound batch_size es in
    let split = count-left_over bound batch_size es in
    elim (Bool-cases (ltb n batch_size)) [
      | inl last ↦
          let all : es' ≡ kept bound es = left_over-kept bound batch_size es (ground arith) in
          let none_left : count bound es' ≡ 0 = rw all (count-kept bound es) in
          let same : count bound es ≡ n = omega arith in rw (last, all, same) refl
      | inr full ↦
          let more = prune_loop-removed fuel bound (total + n) es' (ground arith) in
          let same : total + n + count bound es' ≡ total + count bound es = omega arith in
          rw (full, more, kept-left_over bound batch_size es, same) refl
    ]
