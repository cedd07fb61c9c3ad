-- ===== src/Updates/Releases/Reported.antt =====
-- What the answer to a write reports of a release, and that the table has it.
use emly_go_api.Base.{
  Bool, false, Option, none, some, List, [], ◌∷◌, ◌++◌, String, ◌≡◌, refl, arith, string_eq,
}
use emly_go_api.Base.Sql.{Database, find_where, some_row}
use emly_go_api.Updates.{Release}
use emly_go_api.Updates.Rows.{is_version}
use emly_go_api.Updates.Releases.{Response, error, created, channels, release, deleted}

-- Some query finds a row of the version that has the two flags.
abbrev pub IsReported : String → Bool → Bool → List Release → Type 0
IsReported w x y rows =
    (row : Release) × (p : Release → Bool) × (find_where p rows ≡ some row)
    × (row.version ≡ w)
    × (row.is_stable ≡ x)
    × (row.is_beta ≡ y)

-- The version and the two flags that an answer reports.
abbrev pub reported : Response → Option (String × Bool × Bool)
reported (error code text) = none
reported (created w x y filename checksum) = some (w, x, y)
reported (channels w x y) = some (w, x, y)
reported (release r) = some (r.version, r.is_stable, r.is_beta)
reported deleted = none

abbrev pub IsTrueOf : Option (String × Bool × Bool) → List Release → Type 0
IsTrueOf none rows = Unit
IsTrueOf (some (w, x, y)) rows = IsReported w x y rows

-- What an answer says of a release is so in the table.
abbrev pub Reports : Response → List Release → Type 0
Reports answer rows = IsTrueOf (reported answer) rows

pub find_where-inserted :
    (db : Database) (new : Release) (rows : List Release)
    → some_row (is_version db new.version) rows ≡ false
    → find_where (is_version db new.version) (rows ++ new ∷ []) ≡ some new
find_where-inserted db new [] fresh = rw (db.same_refl new.version) refl
find_where-inserted db new (r ∷ rows) fresh =
    let rest = find_where-inserted db new rows (ground arith) in
    let other : db.same new.version r.version ≡ false = ground arith in rw other rest
