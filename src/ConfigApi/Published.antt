-- ===== src/ConfigApi/Published.antt =====
-- The published revision: there is at most one, and it never goes back.
use emly_go_api.Base.{
  ℕ, ◌≤◌, ◌<◌, Option, none, some, [], ◌∷◌, String, if◌then◌else◌, ◌≡◌, ◌⊎◌, refl, arith,
  Bool-cases, Option-cases, inl, inr,
}
use emly_go_api.Base.Int.{ℤ, pos}
use emly_go_api.ConfigApi.{
  Status, draft, published, superseded, Row, Table, is_published, max_revision, next_revision,
  current_published, insert, supersede_published, publish_draft, has_draft, delete_draft,
}
use emly_go_api.ConfigApi.Wire.{Wire, Faults}
use emly_go_api.ConfigApi.Handlers.{Request, handle}
use emly_go_api.ConfigApi.Transitions.{
  IsNewer, make_current, Step, unchanged, drafted, made_current, drafted_current, dropped,
  handle-Step,
}

abbrev pub revision_of : Option Row → Option ℕ
revision_of none = none
revision_of (some row) = some row.revision

-- No revision counts as below every one.
abbrev pub IsAtMost : Option ℕ → Option ℕ → Type 0
IsAtMost none after = Unit
IsAtMost (some before) none = before < before
IsAtMost (some before) (some after) = before ≤ after

IsAtMost-refl : (o : Option ℕ) → IsAtMost o o
IsAtMost-refl none = tt
IsAtMost-refl (some n) = omega arith

pub Status-cases : (s : Status) → (s ≡ draft) ⊎ ((s ≡ published) ⊎ (s ≡ superseded))
Status-cases draft = inl refl
Status-cases published = inr (inl refl)
Status-cases superseded = inr (inr refl)

-- After a publication the published row is the draft that it names.
pub revision-make_current :
    (n now : ℕ) (t : Table)
    → revision_of (current_published (make_current n now t))
      ≡ (if has_draft (pos n) (supersede_published t) then some n else none)
unfolding has_draft supersede_published current_published publish_draft
revision-make_current n now [] = refl
revision-make_current n now (row ∷ rows) = elim (Status-cases row.status) [
  | inl e ↦ ground (arith, revision-make_current n now rows)
  | inr (inl e) ↦ ground (arith, revision-make_current n now rows)
  | inr (inr e) ↦ ground (arith, revision-make_current n now rows)
]

current-insert :
    (row : Row) (t : Table)
    → row.status ≡ draft
    → current_published (insert row t) ≡ current_published t
unfolding current_published
current-insert row [] e = rw e refl
current-insert row (x ∷ rows) e = ground (arith, current-insert row rows e)

current-delete : (n : ℤ) (t : Table) → current_published (delete_draft n t) ≡ current_published t
unfolding current_published delete_draft
current-delete n [] = refl
current-delete n (row ∷ rows) = elim (Status-cases row.status) [
  | inl e ↦ ground (arith, current-delete n rows)
  | inr (inl e) ↦ ground (arith, current-delete n rows)
  | inr (inr e) ↦ ground (arith, current-delete n rows)
]

pub next-above : (row : Row) (rows : Table) → next_revision rows ≤ next_revision (row ∷ rows)
unfolding next_revision
next-above row rows = elim (Option-cases (max_revision rows)) [
  | inl e ↦ ground arith
  | inr (m, e) ↦ ground arith
]

pub next-above_head : (row : Row) (rows : Table) → row.revision < next_revision (row ∷ rows)
unfolding next_revision
next-above_head row rows = elim (Option-cases (max_revision rows)) [
  | inl e ↦ ground arith
  | inr (m, e) ↦ ground arith
]

IsNewer-next : (t : Table) → IsNewer (next_revision t) (current_published t)
unfolding current_published
IsNewer-next [] = tt
IsNewer-next (row ∷ rows) = elim (Bool-cases (is_published row.status)) [
  | inl e ↦ rw (e, current_published) (next-above_head row rows)
  | inr e ↦
      rw (e, current_published)
        (weaken (current_published rows) (next-above row rows) (IsNewer-next rows))
]
  where
    weaken : {n m : ℕ} (o : Option Row) → n ≤ m → IsNewer n o → IsNewer m o
    weaken none h newer = tt
    weaken (some row) h newer = omega arith

IsNewer-IsAtMost : (n : ℕ) (o : Option Row) → IsNewer n o → IsAtMost (revision_of o) (some n)
IsNewer-IsAtMost n none newer = tt
IsNewer-IsAtMost n (some row) newer = omega arith

Step-published :
    (t new : Table)
    → Step t new
    → IsAtMost (revision_of (current_published t)) (revision_of (current_published new))
Step-published t _ unchanged = IsAtMost-refl (revision_of (current_published t))
Step-published t _ (drafted row e n) =
    rw (current-insert row t e) (IsAtMost-refl (revision_of (current_published t)))
Step-published t _ (made_current n now there newer) =
    rw (revision-make_current n now t, there) (IsNewer-IsAtMost n (current_published t) newer)
Step-published t _ (drafted_current row now e n there) =
    rw (revision-make_current (next_revision t) now (insert row t), there)
      (IsNewer-IsAtMost (next_revision t) (current_published t) (IsNewer-next t))
Step-published t _ (dropped n) =
    rw (current-delete n t) (IsAtMost-refl (revision_of (current_published t)))

-- No request that writes revisions, whatever it answers and whichever statement of the database
-- fails, takes the published revision away or puts one with a lower number in its place.
pub handle-published :
    (wire : Wire) (upstream : String) (f : Faults) (now : ℕ) (user : Option String)
    (req : Request wire) (t : Table)
    → IsAtMost
        (revision_of (current_published t))
        (revision_of (current_published (handle wire upstream f now user req t).1))
handle-published wire upstream f now user req t =
    Step-published t _ (handle-Step wire f now t upstream user req)
