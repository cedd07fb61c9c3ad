-- ===== src/UpdaterClient/Collisions.antt =====
-- An upsert of a client that gives its host name meets no duplicate key.
use emly_go_api.Base.{
  Bool, true, false, ◌||◌, Option, none, some, List, [], ◌∷◌, String, ◌==◌, string_eq, nat_beq, ◌≡◌,
  refl, sym, arith, Bool-cases, Option-cases, inl, inr, All, All-imp, ◌∙◌, ◌⊎◌, ap,
}
use emly_go_api.Base.Sql.{Database, find_where, delete_where, some_row}
use emly_go_api.Updates.Slots.Found
use emly_go_api.UpdaterClient.{Identity}
use emly_go_api.UpdaterClient.Registry.{
  Client, coalesce, same_hwid, is_pair, collides, has_id, find_hwid, find_pair, find_target,
}

pub some_row-none :
    (p : Client → Bool) (rows : List Client) → All (λ c. p c ≡ false) rows → some_row p rows ≡ false
some_row-none p [] h = refl
some_row-none p (c ∷ rows) (off, h) = rw off (some_row-none p rows h)

pub find_where-none :
    (p : Client → Bool) (rows : List Client)
    → find_where p rows ≡ none
    → All (λ c. p c ≡ false) rows
find_where-none p [] e = tt
find_where-none p (c ∷ rows) e = (ground arith, find_where-none p rows (ground arith))

-- What a DELETE leaves are rows of the table that it does not select.
pub delete_where-All :
    (P : Client → Type 0) (p : Client → Bool) (rows : List Client)
    → All P rows
    → All (λ c. P c × (p c ≡ false)) (delete_where p rows)
delete_where-All P p [] h = tt
delete_where-All P p (c ∷ rows) (here, h) = elim (Bool-cases (p c)) [
  | inl gone ↦ rw gone (delete_where-All P p rows h)
  | inr kept ↦ rw kept ((here, kept), delete_where-All P p rows h)
]

module _ (db : Database) where
  or-left : (a b : Bool) → (a || b) ≡ false → a ≡ false
  or-left a b e = ground arith

  -- No two rows collide: uniq_hwid and uniq_client.
  abbrev pub HasUniqueKeys : List Client → Type 0
  HasUniqueKeys [] = Unit
  HasUniqueKeys (c ∷ rows) = All (λ d. collides db c d ≡ false) rows × HasUniqueKeys rows

  same_hwid_sym : (x y : Option String) → same_hwid db x y ≡ true → same_hwid db y x ≡ true
  same_hwid_sym none y e = cc
  same_hwid_sym (some h) none e = cc
  same_hwid_sym (some h) (some k) e = db.same_sym h k e

  same_hwid_trans :
      (x y z : Option String)
      → same_hwid db x y ≡ true
      → same_hwid db y z ≡ true
      → same_hwid db x z ≡ true
  same_hwid_trans none y z e f = e
  same_hwid_trans (some h) none z e f = cc
  same_hwid_trans (some h) (some k) none e f = f
  same_hwid_trans (some h) (some k) (some l) e f = db.same_trans h k l e f

  same_hwid_flip : (x y : Option String) → same_hwid db x y ≡ false → same_hwid db y x ≡ false
  same_hwid_flip x y e = elim (Bool-cases (same_hwid db y x)) [
    | inl met ↦ cc (same_hwid_sym y x met, e)
    | inr apart ↦ apart
  ]

  -- The row that a query finds shares its hwid with no row of another id.
  found_unique :
      (p : Client → Bool) (rows : List Client) (t : Client)
      → HasUniqueKeys rows
      → find_where p rows ≡ some t
      → All (λ d. has_id t.id d ≡ false → same_hwid db t.hwid d.hwid ≡ false) rows
  found_unique p [] t u e = cc
  found_unique p (c ∷ rows) t (apart, u) e = elim (Bool-cases (p c)) [
    | inl hit ↦
        let same : c ≡ t = cc (rw hit at e) in
        (
          λ other. not_own same other,
          All-imp rows (λ d off other. rw (← same) (or-left _ _ off)) apart,
        )
    | inr miss ↦
        let later : find_where p rows ≡ some t = rw miss at e in
        let off : collides db c t ≡ false = Found.find_where-All _ p rows t apart later in
        (λ other. same_hwid_flip c.hwid t.hwid (or-left _ _ off), found_unique p rows t u later)
  ]
    where
      not_own : {a b : Client} {P : Type 0} → a ≡ b → has_id b.id a ≡ false → P
      not_own {a = a} {b = b} same other =
          let own : nat_beq b.id b.id ≡ false = rw same at other in ground arith

  pub find_hwid-given :
      (hwid : String) (rows : List Client)
      → (hwid == "") ≡ false
      → find_hwid db hwid rows ≡ find_where (λ c. same_hwid db (some hwid) c.hwid) rows
  unfolding find_hwid
  find_hwid-given hwid rows given = rw given refl

  find_hwid-blank :
      (hwid : String) (rows : List Client) → (hwid == "") ≡ true → find_hwid db hwid rows ≡ none
  unfolding find_hwid
  find_hwid-blank hwid rows empty = rw empty refl

  pub find_pair-given :
      (hostname ad_domain : String) (rows : List Client)
      → (hostname == "") ≡ false
      → find_pair db hostname ad_domain rows ≡ find_where (is_pair db hostname ad_domain) rows
  unfolding find_pair
  find_pair-given hostname ad_domain rows given = rw given refl

  absurd_none : {t : Client} {P : Type 0} → none ≡ some t → P
  absurd_none e = cc

  -- A target that is not found by its hwid is found by its pair.
  find_target-some :
      (id : Identity) (rows : List Client) (t : Client)
      → (id.hostname == "") ≡ false
      → find_target db id rows ≡ some t
      → (find_hwid db id.hwid rows ≡ some t)
        ⊎ ((find_hwid db id.hwid rows ≡ none)
            × (find_where (is_pair db id.hostname id.ad_domain) rows ≡ some t))
  unfolding find_target
  find_target-some id rows t named e = elim (Option-cases (find_hwid db id.hwid rows)) [
    | inl missing ↦
        let later : find_pair db id.hostname id.ad_domain rows ≡ some t =
          rw (missing, find_target) at e in
        inr (missing, sym (find_pair-given id.hostname id.ad_domain rows named) ∙ later)
    | inr (c, found) ↦
        let same : c ≡ t = cc (rw (found, find_target) at e) in inl (found ∙ ap some same)
  ]

  -- A hwid that is not another's is not that of one with the same hwid.
  kept :
      (h x y : Option String)
      → same_hwid db h x ≡ true
      → same_hwid db x y ≡ false
      → same_hwid db h y ≡ false
  kept h x y held apart = elim (Bool-cases (same_hwid db h y)) [
    | inl met ↦ cc (same_hwid_trans x h y (same_hwid_sym h x held) met, apart)
    | inr off ↦ off
  ]

  -- No other row has the hwid that the target gets.
  pub target_unique :
      (id : Identity) (rows : List Client) (t : Client)
      → HasUniqueKeys rows
      → (id.hostname == "") ≡ false
      → find_target db id rows ≡ some t
      → All
          (λ d. has_id t.id d ≡ false → same_hwid db (coalesce id.hwid t.hwid) d.hwid ≡ false)
          rows
  target_unique id rows t u named e = elim (Bool-cases (id.hwid == "")) [
    | inl empty ↦ elim (find_target-some id rows t named e) [
      | inl found ↦ absurd_none (sym (find_hwid-blank id.hwid rows empty) ∙ found)
      | inr (missing, found) ↦
          rw empty (found_unique (is_pair db id.hostname id.ad_domain) rows t u found)
    ]
    | inr given ↦
        let by_hwid = find_hwid-given id.hwid rows given in
        elim (find_target-some id rows t named e) [
          | inl found ↦
              let held : same_hwid db (some id.hwid) t.hwid ≡ true =
                Found.find_where-true (λ c. same_hwid db (some id.hwid) c.hwid) rows t
                  (sym by_hwid ∙ found) in
              rw given (
                All-imp rows (λ d apart other. kept (some id.hwid) t.hwid d.hwid held (apart other))
                  (found_unique (λ c. same_hwid db (some id.hwid) c.hwid) rows t u
                    (sym by_hwid ∙ found)))
          | inr (missing, found) ↦ rw given (
              All-imp rows (λ d off other. off)
                (find_where-none (λ c. same_hwid db (some id.hwid) c.hwid) rows
                  (sym by_hwid ∙ missing)))
        ]
  ]
