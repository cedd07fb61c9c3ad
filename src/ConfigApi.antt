-- ===== src/ConfigApi.antt =====
-- internal/configapi and internal/models/remote_config_revision.go: the table
-- remote_config_revisions as a list of rows, and each SQL statement on it as a function.
pub mod Wire
pub mod Handlers
pub mod Reading
pub mod Revalidation
pub mod Preview
pub mod Transitions
pub mod Published
pub mod Unique
pub mod Numbers
pub mod Examples
use emly_go_api.Base.{
  ℕ, suc, Bool, true, false, ◌&&◌, ◌||◌, Option, none, some, List, [], ◌∷◌, ◌++◌, String,
  if◌then◌else◌, nat_beq, ltb,
}
use emly_go_api.Base.Int.{ℤ, pos, negsuc}

-- The column status.
pub data Status : Type 0 where
  draft : Status
  published : Status
  superseded : Status

-- RemoteConfigRevision. created_at is filled by the database, and no code reads it.
pub record Row : Type 0 where
  pub revision : ℕ
  pub schema_version : ℤ
  pub status : Status
  pub document : String
  pub etag : String
  pub notes : Option String
  pub created_by : Option String
  pub based_on : Option ℤ
  pub generated_at : ℕ
  pub published_at : Option ℕ

abbrev pub Table : Type 0
Table = List Row

abbrev pub is_draft : Status → Bool
is_draft draft = true
is_draft published = false
is_draft superseded = false

abbrev pub is_published : Status → Bool
is_published draft = false
is_published published = true
is_published superseded = false

-- `revision = ?`: the column is unsigned, so a negative number finds no row.
abbrev pub has_revision : ℤ → Row → Bool
has_revision (pos n) row = nat_beq row.revision n
has_revision (negsuc n) row = false

-- SELECT MAX(revision)
unfoldable pub max_revision : Table → Option ℕ
max_revision [] = none
max_revision (row ∷ rows) = some (larger (max_revision rows))
  where
    larger : Option ℕ → ℕ
    larger none = row.revision
    larger (some m) = if ltb row.revision m then m else row.revision

-- The number that CreateConfigRevision and RollbackConfig give.
unfoldable pub next_revision : Table → ℕ
unfolding max_revision
next_revision t = elim (max_revision t) [ none ↦ 1 | some m ↦ suc m ]

-- SELECT … WHERE revision = ?
unfoldable pub find_row : ℤ → Table → Option Row
find_row n [] = none
find_row n (row ∷ rows) = if has_revision n row then some row else find_row n rows

-- SELECT revision … WHERE status = 'published' LIMIT 1
unfoldable pub current_published : Table → Option Row
current_published [] = none
current_published (row ∷ rows) =
    if is_published row.status then some row else current_published rows

-- INSERT of a number that no row has.
abbrev pub insert : Row → Table → Table
insert row t = t ++ row ∷ []

abbrev pub supersede : Row → Row
supersede row = record row { status = if is_published row.status then superseded else row.status }

-- UPDATE … SET status = 'superseded' WHERE status = 'published'
unfoldable pub supersede_published : Table → Table
supersede_published [] = []
supersede_published (row ∷ rows) = supersede row ∷ supersede_published rows

-- `revision = ? AND status = 'draft'`
abbrev pub is_draft_of : ℤ → Row → Bool
is_draft_of n row = has_revision n row && is_draft row.status

-- UPDATE … SET status = 'published', published_at = NOW() WHERE revision = ? AND status = 'draft'
unfoldable pub publish_draft : ℤ → ℕ → Table → Table
publish_draft n now [] = []
publish_draft n now (row ∷ rows) =
    (if is_draft_of n row then record row { status = published; published_at = some now } else row)
    ∷ publish_draft n now rows

-- Whether a statement on the draft of a revision affects a row.
unfoldable pub has_draft : ℤ → Table → Bool
has_draft n [] = false
has_draft n (row ∷ rows) = is_draft_of n row || has_draft n rows

-- DELETE … WHERE revision = ? AND status = 'draft'
unfoldable pub delete_draft : ℤ → Table → Table
delete_draft n [] = []
delete_draft n (row ∷ rows) =
    let rest = delete_draft n rows in if is_draft_of n row then rest else row ∷ rest
