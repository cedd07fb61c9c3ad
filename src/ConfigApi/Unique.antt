-- ===== src/ConfigApi/Unique.antt =====
-- Each revision number has one row, and one row at most is published.
use emly_go_api.Base.{
  ℕ, ◌+◌, ◌≤◌, Bool, false, ◌||◌, Option, [], ◌∷◌, String, if◌then◌else◌, ◌≡◌, refl, arith,
  Bool-cases, inl, inr, nat_beq,
}
use emly_go_api.Base.Int.{ℤ}
use emly_go_api.ConfigApi.{
  draft, Row, Table, is_published, next_revision, insert, supersede_published, is_draft_of,
  publish_draft, delete_draft,
}
use emly_go_api.ConfigApi.Wire.{Wire, Faults}
use emly_go_api.ConfigApi.Handlers.{Request, handle}
use emly_go_api.ConfigApi.Transitions.{
  make_current, Step, unchanged, drafted, made_current, drafted_current, dropped, handle-Step,
}
use emly_go_api.ConfigApi.Published.{Status-cases, next-above, next-above_head}

abbrev pub has_row : ℕ → Table → Bool
has_row n [] = false
has_row n (row ∷ rows) = nat_beq row.revision n || has_row n rows

abbrev pub HasDistinctRevisions : Table → Type 0
HasDistinctRevisions [] = Unit
HasDistinctRevisions (row ∷ rows) = (has_row row.revision rows ≡ false) × HasDistinctRevisions rows

abbrev pub count_published : Table → ℕ
count_published [] = 0
count_published (row ∷ rows) = (if is_published row.status then 1 else 0) + count_published rows

abbrev pub IsConsistent : Table → Type 0
IsConsistent t = HasDistinctRevisions t × (count_published t ≤ 1)

has_row-make_current : (m n now : ℕ) (t : Table) → has_row m (make_current n now t) ≡ has_row m t
unfolding supersede_published publish_draft
has_row-make_current m n now [] = refl
has_row-make_current m n now (row ∷ rows) = ground (arith, has_row-make_current m n now rows)

make_current-distinct :
    (n now : ℕ) (t : Table) → HasDistinctRevisions t → HasDistinctRevisions (make_current n now t)
unfolding supersede_published publish_draft
make_current-distinct n now [] d = tt
make_current-distinct n now (row ∷ rows) (fresh, d) = (
  ground (arith, fresh, has_row-make_current row.revision n now rows),
  make_current-distinct n now rows d,
)

count-make_current_absent :
    (n now : ℕ) (t : Table) → has_row n t ≡ false → count_published (make_current n now t) ≡ 0
unfolding supersede_published publish_draft
count-make_current_absent n now [] e = refl
count-make_current_absent n now (row ∷ rows) e = elim (Status-cases row.status) [
  | inl s ↦ ground (arith, count-make_current_absent n now rows)
  | inr (inl s) ↦ ground (arith, count-make_current_absent n now rows)
  | inr (inr s) ↦ ground (arith, count-make_current_absent n now rows)
]

count-make_current :
    (n now : ℕ) (t : Table) → HasDistinctRevisions t → count_published (make_current n now t) ≤ 1
unfolding supersede_published publish_draft
count-make_current n now [] d = omega arith
count-make_current n now (row ∷ rows) (fresh, d) = elim (Bool-cases (nat_beq row.revision n)) [
  | inl here ↦
      let rest = count-make_current_absent n now rows (ground arith) in
      elim (Status-cases row.status) [
        | inl s ↦ ground arith
        | inr (inl s) ↦ ground arith
        | inr (inr s) ↦ ground arith
      ]
  | inr elsewhere ↦
      let rest = count-make_current n now rows d in
      elim (Status-cases row.status) [
        | inl s ↦ ground arith
        | inr (inl s) ↦ ground arith
        | inr (inr s) ↦ ground arith
      ]
]

pub has_row-next : (n : ℕ) (t : Table) → next_revision t ≤ n → has_row n t ≡ false
has_row-next n [] h = refl
has_row-next n (row ∷ rows) h =
    let here = next-above_head row rows in
    let above = next-above row rows in let rest = has_row-next n rows (omega arith) in ground arith

pub has_row-insert :
    (n : ℕ) (row : Row) (t : Table)
    → has_row n (insert row t) ≡ (has_row n t || nat_beq row.revision n)
has_row-insert n row [] = ground arith
has_row-insert n row (x ∷ rows) = ground (arith, has_row-insert n row rows)

pub insert-distinct :
    (row : Row) (t : Table)
    → has_row row.revision t ≡ false
    → HasDistinctRevisions t
    → HasDistinctRevisions (insert row t)
insert-distinct row [] e d = (refl, tt)
insert-distinct row (x ∷ rows) e (fresh, d) =
    (ground (arith, has_row-insert x.revision row rows), insert-distinct row rows (ground arith) d)

count-insert :
    (row : Row) (t : Table)
    → row.status ≡ draft
    → count_published (insert row t) ≡ count_published t
count-insert row [] e = rw e refl
count-insert row (x ∷ rows) e = ground (arith, count-insert row rows e)

has_row-delete :
    (m : ℕ) (n : ℤ) (t : Table) → has_row m t ≡ false → has_row m (delete_draft n t) ≡ false
unfolding delete_draft
has_row-delete m n [] e = refl
has_row-delete m n (row ∷ rows) e = ground (arith, has_row-delete m n rows)

delete-distinct :
    (n : ℤ) (t : Table) → HasDistinctRevisions t → HasDistinctRevisions (delete_draft n t)
unfolding delete_draft
delete-distinct n [] d = tt
delete-distinct n (row ∷ rows) (fresh, d) = elim (Bool-cases (is_draft_of n row)) [
  | inl gone ↦ rw (gone, delete_draft) (delete-distinct n rows d)
  | inr kept ↦
      rw (kept, delete_draft) (has_row-delete row.revision n rows fresh, delete-distinct n rows d)
]

count-delete : (n : ℤ) (t : Table) → count_published (delete_draft n t) ≤ count_published t
unfolding delete_draft
count-delete n [] = omega arith
count-delete n (row ∷ rows) = ground (arith, count-delete n rows)

Step-IsConsistent : (t new : Table) → Step t new → IsConsistent t → IsConsistent new
Step-IsConsistent t _ unchanged ok = ok
Step-IsConsistent t _ (drafted row e n) (d, c) = (
  insert-distinct row t (has_row-next row.revision t (omega (arith, n))) d,
  omega (arith, c, count-insert row t e),
)
Step-IsConsistent t _ (made_current n now there newer) (d, c) =
    (make_current-distinct n now t d, count-make_current n now t d)
Step-IsConsistent t _ (drafted_current row now e n there) (d, c) =
    let inserted = insert-distinct row t (has_row-next row.revision t (omega (arith, n))) d in
    (
      make_current-distinct (next_revision t) now (insert row t) inserted,
      count-make_current (next_revision t) now (insert row t) inserted,
    )
Step-IsConsistent t _ (dropped n) (d, c) =
    (delete-distinct n t d, omega (arith, c, count-delete n t))

-- Every request that writes revisions, whatever it answers and whichever statement of the database
-- fails, leaves a table in which no two rows share a number and at most one is published, from such
-- a table.
pub handle-IsConsistent :
    (wire : Wire) (upstream : String) (f : Faults) (now : ℕ) (user : Option String)
    (req : Request wire) (t : Table)
    → IsConsistent t
    → IsConsistent (handle wire upstream f now user req t).1
handle-IsConsistent wire upstream f now user req t =
    Step-IsConsistent t _ (handle-Step wire f now t upstream user req)
