-- ===== src/EventPrune/Retention.antt =====
-- What one pass keeps, when the ids were handed out in the order of the moments.
use emly_go_api.Base.{
  ℕ, ◌+◌, ◌*◌, ◌≤◌, ◌<◌, false, none, some, List, [], ◌∷◌, if◌then◌else◌, leb, ◌≡◌, refl, arith,
  Bool-cases, Option-cases, inl, inr, All, All-imp, ◌∙◌, sym, ap, length, leb→le,
}
use emly_go_api.EventPrune.{Event, batch_size, first_since, max_id, first_kept_id, removed, run}
use emly_go_api.EventPrune.Passes.{kept, count, prune_loop-removed, quiet}

-- The rows of the window.
abbrev pub since : ℕ → List Event → List Event
since cutoff [] = []
since cutoff (e ∷ es) =
    let rest = since cutoff es in if leb cutoff e.created_at then e ∷ rest else rest

-- Ids are positive and rise, and no row is older than one with a lower id.
abbrev pub IsInOrder : List Event → Type 0
IsInOrder [] = Unit
IsInOrder (e ∷ es) =
    (0 < e.id) × All (λ f. (e.id < f.id) × (e.created_at ≤ f.created_at)) es × IsInOrder es

kept_everything : (bound : ℕ) (es : List Event) → All (λ f. bound ≤ f.id) es → kept bound es ≡ es
kept_everything bound [] a = refl
kept_everything bound (e ∷ es) (h, a) = ground (arith, kept_everything bound es a)

since_everything :
    (cutoff : ℕ) (es : List Event) → All (λ f. cutoff ≤ f.created_at) es → since cutoff es ≡ es
since_everything cutoff [] a = refl
since_everything cutoff (e ∷ es) (h, a) = ground (arith, since_everything cutoff es a)

first_since-above :
    (cutoff bound id : ℕ) (es : List Event)
    → All (λ f. bound < f.id) es
    → first_since cutoff es ≡ some id
    → bound < id
unfolding first_since
first_since-above cutoff bound id [] a e = cc
first_since-above cutoff bound id (x ∷ es) (h, a) e =
    ground (arith, first_since-above cutoff bound id es a)

kept-since :
    (cutoff id : ℕ) (es : List Event)
    → IsInOrder es
    → first_since cutoff es ≡ some id
    → kept id es ≡ since cutoff es
unfolding first_since
kept-since cutoff id [] o e = cc
kept-since cutoff id (x ∷ es) (p, above, o) e = elim (Bool-cases (leb cutoff x.created_at)) [
  | inl young ↦
      let here : id ≡ x.id = ground arith in
      let after : cutoff ≤ x.created_at = ground arith in
      let all = since_everything cutoff es (All-imp es (λ f h. omega (arith, h.1)) above) in
      let same = kept_everything id es (All-imp es (λ f h. omega (arith, h.0)) above) in
      ground arith
  | inr old ↦
      let later : first_since cutoff es ≡ some id = ground arith in
      let above_id = first_since-above cutoff x.id id es (All-imp es (λ f h. h.0) above) later in
      ground (arith, kept-since cutoff id es o later)
]

since-none : (cutoff : ℕ) (es : List Event) → first_since cutoff es ≡ none → since cutoff es ≡ []
unfolding first_since
since-none cutoff [] e = refl
since-none cutoff (x ∷ es) e = ground (arith, since-none cutoff es)

kept_max : (bound : ℕ) (es : List Event) → max_id es < bound → kept bound es ≡ []
unfolding max_id
kept_max bound [] h = refl
kept_max bound (x ∷ es) h = ground (arith, kept_max bound es)

kept-first_kept_id :
    (cutoff : ℕ) (es : List Event)
    → IsInOrder es
    → kept (first_kept_id cutoff es) es ≡ since cutoff es
unfolding first_kept_id
kept-first_kept_id cutoff es o = elim (Option-cases (first_since cutoff es)) [
  | inl e ↦
      rw (e, first_kept_id)
        (kept_max (max_id es + 1) es (omega arith) ∙ sym (since-none cutoff es e))
  | inr (id, e) ↦ rw (e, first_kept_id) (kept-since cutoff id es o e)
]

count-length : (bound : ℕ) (es : List Event) → count bound es + length (kept bound es) ≡ length es
count-length bound [] = refl
count-length bound (e ∷ es) = ground (arith, count-length bound es)

positive_ids : (es : List Event) → IsInOrder es → All (λ f. 1 ≤ f.id) es
positive_ids [] o = tt
positive_ids (e ∷ es) (p, above, o) = (omega (arith, p), positive_ids es o)

-- A pass in which nothing fails ends, if the fuel is more rounds than the table has full batches: it
-- leaves exactly the rows of the window, in order, and reports the number of the rows it removed. The
-- ids are positive, rise, and no row is older than one with a lower id.
pub run-since :
    (fuel cutoff : ℕ) (es : List Event)
    → IsInOrder es
    → length es < fuel * batch_size
    → (n : ℕ) × (run fuel false quiet cutoff es ≡ (removed n, since cutoff es))
      × (n + length (since cutoff es) ≡ length es)
unfolding run
run-since fuel cutoff es o h = elim (Bool-cases (leb bound 1)) [
  | inl small ↦
      let all : kept bound es ≡ es =
        kept_everything bound es
          (All-imp es (λ f p. omega (arith, p, leb→le bound 1 small)) (positive_ids es o)) in
      let window : since cutoff es ≡ es = sym same ∙ all in
      rw (small, window) (0, refl, omega arith)
  | inr large ↦
      let total : 0 + count bound es + length (since cutoff es) ≡ length es =
        omega (arith, count-length bound es, ap length same) in
      rw (large, prune_loop-removed fuel bound 0 es (omega arith), same)
        (0 + count bound es, refl, total)
]
  where
    bound : ℕ
    bound = first_kept_id cutoff es

    same : kept bound es ≡ since cutoff es
    same = kept-first_kept_id cutoff es o
