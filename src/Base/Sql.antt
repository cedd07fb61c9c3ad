-- ===== src/Base/Sql.antt =====
-- Statements of MySQL on a table whose rows have a unique text key, over the list of its rows.
use mathlib.Core.Path.{◌≡◌}
use native.Mathlib.Omega.{arith}
use mathlib.Core.Bool.{Bool, true, false, not, ◌&&◌, ◌||◌}
use mathlib.Core.Option.{Option, none, some}
use mathlib.Core.List.{List, [], ◌∷◌, ◌++◌}
use Prim.Native.String.{String}
use emly_go_api.Base.Tests.{if◌then◌else◌}

-- The comparison of the collation of the key's column, which for the server's tables ignores case
-- and trailing spaces, and whether the connection asks for `clientFoundRows`.
pub record Database : Type 0 where
  pub same : String → String → Bool
  pub same_refl : (v : String) → same v v ≡ true
  pub same_sym : (v w : String) → same v w ≡ true → same w v ≡ true
  pub same_trans : (u v w : String) → same u v ≡ true → same v w ≡ true → same u w ≡ true
  pub client_found_rows : Bool

module _ {R : Type 0} where
  -- SELECT … WHERE, its first row
  abbrev pub find_where : (R → Bool) → List R → Option R
  find_where p [] = none
  find_where p (r ∷ rows) = let rest = find_where p rows in if p r then some r else rest

  -- UPDATE … SET … WHERE
  abbrev pub update_where : (R → Bool) → (R → R) → List R → List R
  update_where p f [] = []
  update_where p f (r ∷ rows) = (if p r then f r else r) ∷ update_where p f rows

  -- DELETE … WHERE
  abbrev pub delete_where : (R → Bool) → List R → List R
  delete_where p [] = []
  delete_where p (r ∷ rows) = let rest = delete_where p rows in if p r then rest else r ∷ rest

  -- SELECT … WHERE
  abbrev pub keep_where : (R → Bool) → List R → List R
  keep_where p [] = []
  keep_where p (r ∷ rows) = let rest = keep_where p rows in if p r then r ∷ rest else rest

  -- Whether some row satisfies the condition.
  abbrev pub some_row : (R → Bool) → List R → Bool
  some_row p [] = false
  some_row p (r ∷ rows) = p r || some_row p rows

  -- INSERT: an error where a row has the key already.
  abbrev pub insert_new : (R → Bool) → R → List R → Option (List R)
  insert_new p r rows = if some_row p rows then none else some (rows ++ r ∷ [])

  -- Whether RowsAffected of an UPDATE is above 0: by default MySQL counts the rows that change.
  abbrev pub affects : Database → (R → R → Bool) → (R → Bool) → (R → R) → List R → Bool
  affects db equal p f rows =
      if db.client_found_rows
      then some_row p rows
      else some_row (λ r. p r && not (equal (f r) r)) rows

  -- An UPDATE that runs only for a flag that the request sets.
  abbrev pub claim : Bool → (List R → List R) → List R → List R
  claim flag clear rows = if flag then clear rows else rows

  -- An INSERT that succeeds finds no row with the key, and adds the row.
  pub insert_new-some :
      (p : R → Bool) (new : R) (rows after : List R)
      → insert_new p new rows ≡ some after
      → (some_row p rows ≡ false) × (after ≡ rows ++ new ∷ [])
  insert_new-some p new rows after e = ground arith
