-- ===== src/Updates/Manifest/Promotion.antt =====
-- The manifest that is built after a write offers the release that the write reports.
use mathlib.Core.List.{Permᴰ}
use emly_go_api.Base.{
  ◌≤◌, Bool, true, Option, some, List, String, ◌≡◌, refl, sym, ◌∙◌, arith, Bool-cases, inl, inr, ap,
  subst,
}
use emly_go_api.Base.Sql.{Database, find_where}
use emly_go_api.Updates.{Release, Env, Faults}
use emly_go_api.Updates.Slots
use emly_go_api.Updates.Slots.Found
use emly_go_api.Updates.Releases.{State, Request, handle}
use emly_go_api.Updates.Releases.Exclusive.{
  stable, beta, critical, IsExclusive, IsExclusive-HasHolders,
}
use emly_go_api.Updates.Releases.Invariant.{Keeps, handle-Keeps, handle-IsExclusive}
use emly_go_api.Updates.Releases.Reported.{IsTrueOf, reported}
use emly_go_api.Updates.Manifest.{build_manifest}
use emly_go_api.Updates.Manifest.Offers.{offer_of, offer, build_manifest-offer}

-- The order of the rows plays no part where one row at most has the flag.
count-Perm :
    (flag : Release → Bool) {xs ys : List Release}
    → Permᴰ xs ys
    → Slots.count flag xs ≡ Slots.count flag ys
count-Perm flag Permᴰ.nil = refl
count-Perm flag (Permᴰ.cons e p) = rw (e, count-Perm flag p) refl
count-Perm flag (Permᴰ.swap e d) = rw (e, d) (omega arith)
count-Perm flag (Permᴰ.trans p q) = count-Perm flag p ∙ count-Perm flag q

find_where-Perm :
    (flag : Release → Bool) {xs ys : List Release}
    → Permᴰ xs ys
    → Slots.count flag xs ≤ 1
    → find_where flag xs ≡ find_where flag ys
find_where-Perm flag Permᴰ.nil h = refl
find_where-Perm flag (Permᴰ.cons {b = b} e p) h = elim (Bool-cases (flag b)) [
  | inl on ↦ rw (e, on) refl
  | inr off ↦ rw (e, off) (find_where-Perm flag p (ground (arith, e)))
]
find_where-Perm flag (Permᴰ.swap e d) h = ground arith
find_where-Perm flag (Permᴰ.trans p q) h =
    find_where-Perm flag p h ∙ find_where-Perm flag q (subst (λ n. n ≤ 1) (count-Perm flag p) h)

-- A listing of the rows in any order.
module _ (base : String) {rows rels : List Release} (listed : Permᴰ rows rels) where
  listed-offer :
      (s : Slots.count stable rows ≤ 1) (b : Slots.count beta rows ≤ 1)
      (c : Slots.count critical rows ≤ 1)
      → offer_of (build_manifest rels base)
        ≡ offer base (find_where stable rows) (find_where beta rows) (find_where critical rows)
  listed-offer s b c =
      rw
        (
          find_where-Perm stable listed s,
          find_where-Perm beta listed b,
          find_where-Perm critical listed c,
        )
        (build_manifest-offer base rels (subst (λ n. n ≤ 1) (count-Perm stable listed) s)
          (subst (λ n. n ≤ 1) (count-Perm beta listed) b)
          (subst (λ n. n ≤ 1) (count-Perm critical listed) c))

-- From a table with one holder of each flag at most, after a write whose answer reports the version
-- w as stable, the manifest of the table's rows, listed in any order, has w as its stable version.
pub handle-promotes :
    (env : Env) (db : Database) (f : Faults) (storage : Option String) (req : Request) (s : State)
    (base w : String) (y : Bool) (rels : List Release)
    → IsExclusive db s.rows
    → reported (handle env db f storage req s).0 ≡ some (w, true, y)
    → Permᴰ (handle env db f storage req s).1.rows rels
    → (build_manifest rels base).stable_version ≡ w
unfolding Keeps
handle-promotes env db f storage req s base w y rels h answered listed =
    let (d, hs, hb, hc) = handle-IsExclusive env db f storage req s h in
    let (row, p, found, same, on, other) =
      subst (λ o. IsTrueOf o (handle env db f storage req s).1.rows) answered
        (handle-Keeps env db f storage req s (IsExclusive-HasHolders db s.rows h)).1 in
    let offered = Found.find_where-flag stable p _ row found on hs in
    let shown = listed-offer base listed hs hb hc in
    ap (λ o. o.stable_version) shown ∙ rw offered same

-- Where each flag has one holder at most, what the manifest offers does not depend on the order in
-- which the releases are listed.
pub build_manifest-order :
    (base : String) (rels others : List Release)
    → Slots.count stable rels ≤ 1
    → Slots.count beta rels ≤ 1
    → Slots.count critical rels ≤ 1
    → Permᴰ rels others
    → offer_of (build_manifest others base) ≡ offer_of (build_manifest rels base)
build_manifest-order base rels others s b c listed =
    listed-offer base listed s b c ∙ sym (build_manifest-offer base rels s b c)
