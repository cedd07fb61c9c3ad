-- ===== src/Updates/Slots/Found.antt =====
-- What a query finds of the rows that hold a flag.
use emly_go_api.Base.{
  ◌≤◌, Bool, true, false, none, some, List, [], ◌∷◌, ◌≡◌, refl, arith, Bool-cases, inl, inr, All,
  subst,
}
use emly_go_api.Base.Sql.{find_where}
use emly_go_api.Updates.Slots

module _ {R : Type 0} where
  pub count-find_where :
      (flag p : R → Bool) (rows : List R) (row : R)
      → find_where p rows ≡ some row
      → flag row ≡ true
      → 1 ≤ Slots.count flag rows
  count-find_where flag p [] row e on = cc
  count-find_where flag p (r ∷ rows) row e on = elim (Bool-cases (p r)) [
    | inl hit ↦ let same : some r ≡ some row = rw hit at e in ground arith
    | inr miss ↦
        let rest = count-find_where flag p rows row (rw miss at e) on in omega (arith, rest)
  ]

  -- The one row that has the flag is found by it, whatever else found it.
  pub find_where-flag :
      (flag p : R → Bool) (rows : List R) (row : R)
      → find_where p rows ≡ some row
      → flag row ≡ true
      → Slots.count flag rows ≤ 1
      → find_where flag rows ≡ some row
  find_where-flag flag p [] row e on h = cc
  find_where-flag flag p (r ∷ rows) row e on h = elim (Bool-cases (p r)) [
    | inl hit ↦ let same : some r ≡ some row = rw hit at e in ground arith
    | inr miss ↦
        let later : find_where p rows ≡ some row = rw miss at e in
        let many = count-find_where flag p rows row later on in
        let off : flag r ≡ false = ground arith in
        rw off (find_where-flag flag p rows row later on (ground arith))
  ]

  pub find_where-true :
      (p : R → Bool) (rows : List R) (row : R) → find_where p rows ≡ some row → p row ≡ true
  find_where-true p [] row e = cc
  find_where-true p (r ∷ rows) row e = elim (Bool-cases (p r)) [
    | inl hit ↦ let same : some r ≡ some row = rw hit at e in ground arith
    | inr miss ↦ find_where-true p rows row (rw miss at e)
  ]

  pub find_where-All :
      (P : R → Type 0) (p : R → Bool) (rows : List R) (row : R)
      → All P rows
      → find_where p rows ≡ some row
      → P row
  find_where-All P p [] row h e = cc
  find_where-All P p (r ∷ rows) row (here, h) e = elim (Bool-cases (p r)) [
    | inl hit ↦ let same : some r ≡ some row = rw hit at e in subst P (some-injective same) here
    | inr miss ↦ find_where-All P p rows row h (rw miss at e)
  ]
    where
      some-injective : {a b : R} → some a ≡ some b → a ≡ b
      some-injective e = cc

  pub find_where-none :
      (p : R → Bool) (rows : List R) → All (λ r. p r ≡ false) rows → find_where p rows ≡ none
  find_where-none p [] h = refl
  find_where-none p (r ∷ rows) (off, h) = rw off (find_where-none p rows h)
