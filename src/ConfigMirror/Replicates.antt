-- ===== src/ConfigMirror/Replicates.antt =====
-- What a mirror's table holds after a round.
use emly_go_api.Base.{
  ℕ, ◌≤◌, Bool, true, false, none, some, [], ◌∷◌, String, if◌then◌else◌, ◌≡◌, refl, sym, arith,
  Bool-cases, Option-cases, inl, inr, nat_beq, string_eq,
}
use emly_go_api.Base.Int.{ℤ, pos}
use emly_go_api.ConfigApi.{
  published, Row, Table, find_row, current_published, insert, supersede_published,
}
use emly_go_api.ConfigApi.Published.{Status-cases, revision_of}
use emly_go_api.ConfigApi.Unique.{
  has_row, HasDistinctRevisions, count_published, IsConsistent, insert-distinct,
}
use emly_go_api.ConfigMirror.{is_current, overwrite, replica, upsert, store_replicated_revision}

count-is_current : (n : ℕ) (t : Table) → is_current (pos n) t ≡ true → 1 ≤ count_published t
unfolding is_current
count-is_current n [] e = cc
count-is_current n (row ∷ rows) e = ground (arith, count-is_current n rows)

current-is_current :
    (n : ℕ) (t : Table)
    → count_published t ≤ 1
    → is_current (pos n) t ≡ true
    → revision_of (current_published t) ≡ some n
unfolding is_current current_published
current-is_current n [] c e = cc
current-is_current n (row ∷ rows) c e =
    ground (arith, current-is_current n rows, count-is_current n rows)

find_row-absent : (n : ℕ) (t : Table) → find_row (pos n) t ≡ none → has_row n t ≡ false
unfolding find_row
find_row-absent n [] e = refl
find_row-absent n (row ∷ rows) e = ground (arith, find_row-absent n rows)

find_row-present :
    (n : ℕ) (row : Row) (t : Table) → find_row (pos n) t ≡ some row → has_row n t ≡ true
unfolding find_row
find_row-present n row [] e = cc
find_row-present n row (x ∷ rows) e = ground (arith, find_row-present n row rows)

has_row-supersede : (n : ℕ) (t : Table) → has_row n (supersede_published t) ≡ has_row n t
unfolding supersede_published
has_row-supersede n [] = refl
has_row-supersede n (row ∷ rows) = ground (arith, has_row-supersede n rows)

supersede-distinct :
    (t : Table) → HasDistinctRevisions t → HasDistinctRevisions (supersede_published t)
unfolding supersede_published
supersede-distinct [] d = tt
supersede-distinct (row ∷ rows) (fresh, d) =
    (ground (arith, has_row-supersede row.revision rows), supersede-distinct rows d)

current-replica :
    (r : Row) (t : Table)
    → r.status ≡ published
    → revision_of (current_published (insert r (supersede_published t))) ≡ some r.revision
unfolding current_published supersede_published
current-replica r [] e = rw e refl
current-replica r (row ∷ rows) e = elim (Status-cases row.status) [
  | inl s ↦ ground (arith, current-replica r rows)
  | inr (inl s) ↦ ground (arith, current-replica r rows)
  | inr (inr s) ↦ ground (arith, current-replica r rows)
]

count-replica : (r : Row) (t : Table) → count_published (insert r (supersede_published t)) ≤ 1
unfolding supersede_published
count-replica r [] = ground arith
count-replica r (row ∷ rows) = elim (Status-cases row.status) [
  | inl s ↦ ground (arith, count-replica r rows)
  | inr (inl s) ↦ ground (arith, count-replica r rows)
  | inr (inr s) ↦ ground (arith, count-replica r rows)
]

module _ (n : ℕ) (body etag : String) (generated_at now : ℕ) where
  abbrev overwritten : Table → Table
  overwritten t = overwrite (pos n) body etag generated_at now (supersede_published t)

  current-overwrite :
      (t : Table)
      → revision_of (current_published (overwritten t)) ≡ (if has_row n t then some n else none)
  unfolding current_published overwrite supersede_published
  current-overwrite [] = refl
  current-overwrite (row ∷ rows) = elim (Status-cases row.status) [
    | inl s ↦ ground (arith, current-overwrite rows)
    | inr (inl s) ↦ ground (arith, current-overwrite rows)
    | inr (inr s) ↦ ground (arith, current-overwrite rows)
  ]

  has_row-overwrite : (m : ℕ) (t : Table) → has_row m (overwritten t) ≡ has_row m t
  unfolding overwrite supersede_published
  has_row-overwrite m [] = refl
  has_row-overwrite m (row ∷ rows) = ground (arith, has_row-overwrite m rows)

  overwrite-distinct : (t : Table) → HasDistinctRevisions t → HasDistinctRevisions (overwritten t)
  unfolding overwrite supersede_published
  overwrite-distinct [] d = tt
  overwrite-distinct (row ∷ rows) (fresh, d) =
      (ground (arith, has_row-overwrite row.revision rows), overwrite-distinct rows d)

  count-overwrite_absent : (t : Table) → has_row n t ≡ false → count_published (overwritten t) ≡ 0
  unfolding overwrite supersede_published
  count-overwrite_absent [] e = refl
  count-overwrite_absent (row ∷ rows) e = elim (Status-cases row.status) [
    | inl s ↦ ground (arith, count-overwrite_absent rows)
    | inr (inl s) ↦ ground (arith, count-overwrite_absent rows)
    | inr (inr s) ↦ ground (arith, count-overwrite_absent rows)
  ]

  count-overwrite : (t : Table) → HasDistinctRevisions t → count_published (overwritten t) ≤ 1
  unfolding overwrite supersede_published
  count-overwrite [] d = omega arith
  count-overwrite (row ∷ rows) (fresh, d) = elim (Bool-cases (nat_beq row.revision n)) [
    | inl here ↦ let rest = count-overwrite_absent rows (ground arith) in ground arith
    | inr elsewhere ↦
        let rest = count-overwrite rows d in
        elim (Status-cases row.status) [
          | inl s ↦ ground arith
          | inr (inl s) ↦ ground arith
          | inr (inr s) ↦ ground arith
        ]
  ]

  abbrev Holds : Table → Type 0
  Holds new = (revision_of (current_published new) ≡ some n) × IsConsistent new

  upsert-Holds :
      (schema_version : ℤ) (t new : Table)
      → IsConsistent t
      → upsert (pos n) schema_version body etag generated_at now (supersede_published t) ≡ some new
      → Holds new
  unfolding upsert
  upsert-Holds schema_version t new (d, c) e =
      elim (Option-cases (find_row (pos n) (supersede_published t))) [
        | inl absent ↦
            let r = replica n schema_version body etag generated_at now in
            let no_row = find_row-absent n (supersede_published t) absent in
            let same : new ≡ insert r (supersede_published t) = ground arith in
            rw same (
              current-replica r t refl,
              (
                insert-distinct r (supersede_published t) no_row (supersede-distinct t d),
                count-replica r t,
              ),
            )
        | inr (row, there) ↦
            let here : has_row n t ≡ true = ground (
              arith,
              find_row-present n row (supersede_published t) there,
              has_row-supersede n t,
            ) in
            let same : new ≡ overwritten t = ground arith in
            rw same
              (rw (current-overwrite t, here) refl, (overwrite-distinct t d, count-overwrite t d))
      ]

  -- When a mirror stores a revision without an error, that revision is the published one afterwards,
  -- whether it was there before as a published row, as another row, or not at all; and each number
  -- still has one row and one row at most is published, if that was so before.
  pub store_replicated_revision-current :
      (failed : Bool) (schema_version : ℤ) (t new : Table)
      → IsConsistent t
      → store_replicated_revision failed (pos n) schema_version body etag generated_at now t
        ≡ some new
      → (revision_of (current_published new) ≡ some n) × IsConsistent new
  unfolding store_replicated_revision
  store_replicated_revision-current true schema_version t new ok e = cc
  store_replicated_revision-current false schema_version t new (d, c) e =
      elim (Bool-cases (is_current (pos n) t)) [
        | inl here ↦
            let same : t ≡ new = ground arith in
            rw (sym same) (current-is_current n t c here, (d, c))
        | inr other ↦ upsert-Holds schema_version t new (d, c) (rw other at e)
      ]
