-- ===== src/RemoteConfig/MergePatch.antt =====
-- internal/remoteconfig/mergepatch.go: `mergePatch`, and what RFC 7386 asks of it.
pub mod Apply
use emly_go_api.Base.{
  Bool, true, false, Option, none, some, String, ◌==◌, string_eq, ==-refl, if◌then◌else◌, ◌≡◌, ◌≢◌,
  refl, sym, arith, ◌∙◌, Bool-cases, Option-cases, inl, inr,
}
use text.Mathlib.TextEquality.{eq_iff}
use emly_go_api.RemoteConfig.Json.{
  Value, null, boolean, number, string, array, object, Items, nil, cons, Fields, end, field, find,
  at, put, drop, is_null, fields_of,
}

-- The loop over the patch runs in the order of its list; the order does not matter (below).
unfoldable mutual
  pub merge_patch : Value → Value → Value
  merge_patch target (object patch) = object (merge_fields (fields_of target) patch)
  merge_patch target patch = patch

  pub merge_fields : Fields → Fields → Fields
  merge_fields target end = target
  merge_fields target (field k v patch) =
      let merged = merge_patch (at k target) v in
      merge_fields (if is_null v then drop k target else put k merged target) patch

pub find-put :
    (k j : String) (v : Value) (fs : Fields)
    → find j (put k v fs) ≡ (if k == j then some v else find j fs)
find-put k j v end = refl
find-put k j v (field i w fs) =
    ground (arith, eq_iff k j, eq_iff i k, eq_iff i j, find-put k j v fs)

find-drop : (k j : String) (fs : Fields) → find j (drop k fs) ≡ (if k == j then none else find j fs)
find-drop k j end = ground arith
find-drop k j (field i w fs) = ground (arith, eq_iff k j, eq_iff i k, eq_iff i j, find-drop k j fs)

-- No key occurs twice, as in every Go map.
abbrev pub HasDistinctKeys : Fields → Type 0
HasDistinctKeys end = Unit
HasDistinctKeys (field k v fs) = (find k fs ≡ none) × HasDistinctKeys fs

-- What RFC 7386 says of one member: absent from the patch it stays, null removes it, and any other
-- value is merged into the old one.
abbrev pub merged_member : Option Value → Option Value → Option Value
merged_member target none = target
merged_member target (some null) = none
merged_member none (some v) = some (merge_patch null v)
merged_member (some t) (some v) = some (merge_patch t v)

is_null→null : (v : Value) → is_null v ≡ true → v ≡ null
is_null→null null e = refl
is_null→null (boolean b) e = cc
is_null→null (number n) e = cc
is_null→null (string s) e = cc
is_null→null (array xs) e = cc
is_null→null (object fs) e = cc

merged_member_null : (target : Option Value) → merged_member target (some null) ≡ none
merged_member_null none = refl
merged_member_null (some t) = refl

merged_member-some :
    (target : Option Value) (v : Value)
    → is_null v ≡ false
    → merged_member target (some v)
      ≡ some (merge_patch (elim target [ none ↦ null | some t ↦ t ]) v)
merged_member-some none null e = cc
merged_member-some (some t) null e = cc
merged_member-some none (boolean b) e = refl
merged_member-some (some t) (boolean b) e = refl
merged_member-some none (number n) e = refl
merged_member-some (some t) (number n) e = refl
merged_member-some none (string s) e = refl
merged_member-some (some t) (string s) e = refl
merged_member-some none (array xs) e = refl
merged_member-some (some t) (array xs) e = refl
merged_member-some none (object fs) e = refl
merged_member-some (some t) (object fs) e = refl

-- The first member of the patch, and the rest of it.
first_member :
    (j k : String) (target : Fields) (v : Value) (patch : Fields)
    → find k patch ≡ none
    → merged_member
        (find j (if is_null v then drop k target else put k (merge_patch (at k target) v) target))
        (find j patch)
      ≡ merged_member (find j target) (if k == j then some v else find j patch)
first_member j k target v patch fresh = elim (Bool-cases (k == j)) [
  | inl hit ↦
      let same : k ≡ j = (eq_iff k j).0 hit in
      let absent : find j patch ≡ none = rw (← same) fresh in
      elim (Bool-cases (is_null v)) [
        | inl gone ↦
            rw (gone, find-drop k j target, hit, absent, is_null→null v gone)
              (sym (merged_member_null (find j target)))
        | inr kept ↦ rw (
          kept,
          find-put k j (merge_patch (at k target) v) target,
          hit,
          absent,
          merged_member-some (find j target) v kept,
          same,
        )
      ]
  | inr miss ↦ elim (Bool-cases (is_null v)) [
    | inl gone ↦ rw (gone, find-drop k j target, miss)
    | inr kept ↦ rw (kept, find-put k j (merge_patch (at k target) v) target, miss)
  ]
]

-- Every member of the merged object is what RFC 7386 says, from the members of the same name of
-- the target and of the patch alone: so it does not depend on the order of the patch's members.
pub find-merge_fields :
    (j : String) (target patch : Fields)
    → HasDistinctKeys patch
    → find j (merge_fields target patch) ≡ merged_member (find j target) (find j patch)
unfolding merge_fields
find-merge_fields j target end h = refl
find-merge_fields j target (field k v patch) (fresh, h) =
    let next = if is_null v then drop k target else put k (merge_patch (at k target) v) target in
    find-merge_fields j next patch h ∙ first_member j k target v patch fresh
