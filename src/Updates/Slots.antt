-- ===== src/Updates/Slots.antt =====
-- Tables with a unique text key and flags that at most one row holds, under each statement.
pub mod Claims
pub mod Found
use emly_go_api.Base.{
  ℕ, ◌+◌, ◌≤◌, Bool, true, false, not, ◌&&◌, ◌||◌, List, [], ◌∷◌, ◌++◌, String, if◌then◌else◌, ◌≡◌,
  refl, arith, Bool-cases, ◌⊎◌, inl, inr, All, All-imp, if-intro, some, none,
}
use emly_go_api.Base.Sql.{Database, update_where, delete_where, some_row, insert_new}

-- Every row satisfies `P`, under the statements.
module _ {R : Type 0} where
  pub All-update_where :
      (P Q : R → Type 0) (p : R → Bool) (f : R → R) (rows : List R)
      → ((r : R) → P r → p r ≡ true → Q (f r))
      → ((r : R) → P r → p r ≡ false → Q r)
      → All P rows
      → All Q (update_where p f rows)
  All-update_where P Q p f [] hit other h = tt
  All-update_where P Q p f (r ∷ rows) hit other (here, h) = (
    elim (Bool-cases (p r)) [ inl e ↦ rw e (hit r here e) | inr e ↦ rw e (other r here e) ],
    All-update_where P Q p f rows hit other h,
  )

  pub All-delete_where :
      (P : R → Type 0) (p : R → Bool) (rows : List R) → All P rows → All P (delete_where p rows)
  All-delete_where P p [] h = tt
  All-delete_where P p (r ∷ rows) (here, h) =
      let rest : All P (delete_where p rows) = All-delete_where P p rows h in
      if-intro (All P) (p r) (delete_where p rows) (r ∷ delete_where p rows) rest (here, rest)

  pub All-append_one :
      (P : R → Type 0) (rows : List R) (r : R) → All P rows → P r → All P (rows ++ r ∷ [])
  All-append_one P [] r h last = (last, tt)
  All-append_one P (x ∷ rows) r (here, h) last = (here, All-append_one P rows r h last)

  pub All-every : (P : R → Type 0) (rows : List R) → ((r : R) → P r) → All P rows
  All-every P [] f = tt
  All-every P (r ∷ rows) f = (f r, All-every P rows f)

  abbrev pub count : (R → Bool) → List R → ℕ
  count flag [] = 0
  count flag (r ∷ rows) = (if flag r then 1 else 0) + count flag rows

  count-zero :
      (flag : R → Bool) (rows : List R) → count flag rows ≤ 0 → All (λ r. flag r ≡ false) rows
  count-zero flag [] h = tt
  count-zero flag (r ∷ rows) h = (ground arith, count-zero flag rows (ground arith))

module _ {R : Type 0} (db : Database) (key : R → String) where
  abbrev pub has_key : String → List R → Bool
  has_key v = some_row (λ r. db.same v (key r))

  -- The unique key.
  abbrev pub HasDistinctKeys : List R → Type 0
  HasDistinctKeys [] = Unit
  HasDistinctKeys (r ∷ rows) = (has_key (key r) rows ≡ false) × HasDistinctKeys rows

  -- Only a row with the key `v` holds the flag.
  abbrev pub IsHeldBy : (R → Bool) → String → List R → Type 0
  IsHeldBy flag v = All (λ r. flag r ≡ true → db.same v (key r) ≡ true)

  abbrev pub HasHolder : (R → Bool) → List R → Type 0
  HasHolder flag rows = (v : String) × IsHeldBy flag v rows

  -- A statement that changes no key.
  abbrev pub KeepsKey : (R → R) → Type 0
  KeepsKey f = (r : R) → key (f r) ≡ key r

  has_key-update_where :
      (p : R → Bool) (f : R → R) (v : String) (rows : List R)
      → KeepsKey f
      → has_key v (update_where p f rows) ≡ has_key v rows
  has_key-update_where p f v [] keeps = refl
  has_key-update_where p f v (r ∷ rows) keeps = elim (Bool-cases (p r)) [
    | inl e ↦ rw (e, keeps r, has_key-update_where p f v rows keeps)
    | inr e ↦ rw (e, has_key-update_where p f v rows keeps)
  ]

  pub update_where-HasDistinctKeys :
      (p : R → Bool) (f : R → R) (rows : List R)
      → KeepsKey f
      → HasDistinctKeys rows
      → HasDistinctKeys (update_where p f rows)
  update_where-HasDistinctKeys p f [] keeps d = tt
  update_where-HasDistinctKeys p f (r ∷ rows) keeps (fresh, d) =
      let rest : HasDistinctKeys (update_where p f rows) =
        update_where-HasDistinctKeys p f rows keeps d in
      elim (Bool-cases (p r)) [
        | inl e ↦ (rw (e, keeps r, has_key-update_where p f (key r) rows keeps) fresh, rest)
        | inr e ↦ (rw (e, has_key-update_where p f (key r) rows keeps) fresh, rest)
      ]

  has_key-delete_where :
      (p : R → Bool) (v : String) (rows : List R)
      → has_key v rows ≡ false
      → has_key v (delete_where p rows) ≡ false
  has_key-delete_where p v [] h = refl
  has_key-delete_where p v (r ∷ rows) h = ground (arith, has_key-delete_where p v rows)

  pub delete_where-HasDistinctKeys :
      (p : R → Bool) (rows : List R) → HasDistinctKeys rows → HasDistinctKeys (delete_where p rows)
  delete_where-HasDistinctKeys p [] d = tt
  delete_where-HasDistinctKeys p (r ∷ rows) (fresh, d) =
      let rest : HasDistinctKeys (delete_where p rows) = delete_where-HasDistinctKeys p rows d in
      if-intro HasDistinctKeys (p r) (delete_where p rows) (r ∷ delete_where p rows) rest
        (has_key-delete_where p (key r) rows fresh, rest)

  has_key-append_one :
      (v : String) (rows : List R) (r : R)
      → has_key v (rows ++ r ∷ []) ≡ (has_key v rows || db.same v (key r))
  has_key-append_one v [] r = ground arith
  has_key-append_one v (x ∷ rows) r = ground (arith, has_key-append_one v rows r)

  pub append_one-HasDistinctKeys :
      (rows : List R) (r : R)
      → has_key (key r) rows ≡ false
      → HasDistinctKeys rows
      → HasDistinctKeys (rows ++ r ∷ [])
  append_one-HasDistinctKeys [] r h d = (refl, tt)
  append_one-HasDistinctKeys (x ∷ rows) r h (fresh, d) = (
    ground (arith, has_key-append_one (key x) rows r, db.same_sym (key x) (key r)),
    append_one-HasDistinctKeys rows r (ground arith) d,
  )

  -- A statement that gives the flag to no row.
  abbrev pub KeepsUnset : (R → Bool) → (R → R) → Type 0
  KeepsUnset flag f = (r : R) → flag (f r) ≡ true → flag r ≡ true

  pub update_where-IsHeldBy :
      (flag : R → Bool) (v : String) (p : R → Bool) (f : R → R) (rows : List R)
      → KeepsKey f
      → KeepsUnset flag f
      → IsHeldBy flag v rows
      → IsHeldBy flag v (update_where p f rows)
  update_where-IsHeldBy flag v p f rows keeps unset =
      All-update_where _ _ p f rows (λ r h e on. rw (keeps r) (h (unset r on))) (λ r h e. h)

  -- What a change of the row with the key `v` does, no other row gets the flag.
  pub update_key-IsHeldBy :
      (flag : R → Bool) (v : String) (f : R → R) (rows : List R)
      → KeepsKey f
      → IsHeldBy flag v rows
      → IsHeldBy flag v (update_where (λ r. db.same v (key r)) f rows)
  update_key-IsHeldBy flag v f rows keeps =
      All-update_where _ _ (λ r. db.same v (key r)) f rows (λ r h e on. rw (keeps r) e) (λ r h e. h)

  -- Once the flag is cleared elsewhere, only the row with the key `v` can hold it.
  pub clear_elsewhere-IsHeldBy :
      (flag : R → Bool) (v : String) (f : R → R) (rows : List R)
      → ((r : R) → flag (f r) ≡ false)
      → IsHeldBy flag v (update_where (λ r. flag r && not (db.same v (key r))) f rows)
  clear_elsewhere-IsHeldBy flag v f rows off =
      All-update_where (λ r. Unit) _ (λ r. flag r && not (db.same v (key r))) f rows
        (λ r h e on. cc (on, off r)) (λ r h e on. ground arith) (All-every _ rows (λ r. tt))

  count-IsHeldBy :
      (flag : R → Bool) (v w : String) (rows : List R)
      → db.same v w ≡ true
      → has_key w rows ≡ false
      → IsHeldBy flag v rows
      → count flag rows ≡ 0
  count-IsHeldBy flag v w [] e fresh h = refl
  count-IsHeldBy flag v w (r ∷ rows) e fresh (here, h) =
      let rest = count-IsHeldBy flag v w rows e (ground arith) h in
      elim (Bool-cases (flag r)) [
        | inl on ↦
            let met : db.same w (key r) ≡ true =
              db.same_trans w v (key r) (db.same_sym v w e) (here on) in
            ground arith
        | inr off ↦ ground arith
      ]

  -- One holder at most, counted.
  pub count-HasHolder :
      (flag : R → Bool) (rows : List R)
      → HasDistinctKeys rows
      → HasHolder flag rows
      → count flag rows ≤ 1
  count-HasHolder flag [] d h = omega arith
  count-HasHolder flag (r ∷ rows) (fresh, d) (v, (here, h)) = elim (Bool-cases (flag r)) [
    | inl on ↦
        let rest : count flag rows ≡ 0 = count-IsHeldBy flag v (key r) rows (here on) fresh h in
        ground arith
    | inr off ↦ let rest = count-HasHolder flag rows d (v, h) in ground arith
  ]

  pub HasHolder-count :
      (flag : R → Bool) (rows : List R) → count flag rows ≤ 1 → HasHolder flag rows
  HasHolder-count flag [] h = ("", tt)
  HasHolder-count flag (r ∷ rows) h = elim (Bool-cases (flag r)) [
    | inl on ↦
        let none_else = count-zero flag rows (ground arith) in
        (key r, (λ e. db.same_refl (key r), All-imp rows (λ q off e. cc (off, e)) none_else))
    | inr off ↦
        let (v, held) = HasHolder-count flag rows (ground arith) in (v, (λ e. cc (off, e), held))
  ]
