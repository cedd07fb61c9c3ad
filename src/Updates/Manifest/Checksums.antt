-- ===== src/Updates/Manifest/Checksums.antt =====
-- The manifest lists the checksum of every release.
use emly_go_api.Base.{
  true, false, Option, none, List, [], ◌∷◌, String, ◌==◌, string_eq, ◌≡◌, ◌≢◌, refl, sym, ◌∙◌,
  arith, Bool-cases, inl, inr, All,
}
use emly_go_api.Base.Dict.{get, get-put_self, get-put_ne}
use emly_go_api.Base.Sql.{Database}
use emly_go_api.Updates.{Release}
use emly_go_api.Updates.Slots
use emly_go_api.DbValue.{null_string}
use emly_go_api.Updates.Releases.Exclusive.{version_of}
use emly_go_api.Updates.Manifest.{Draft, add_release, add_releases, blank, build_manifest}

abbrev IsOther : String → Release → Type 0
IsOther v q = q.version ≢ v

HasDistinctKeys-others :
    (db : Database) (v : String) (rels : List Release)
    → Slots.has_key db version_of v rels ≡ false
    → All (IsOther v) rels
HasDistinctKeys-others db v [] h = tt
HasDistinctKeys-others db v (q ∷ rels) h = (
  λ e. let met : db.same v q.version ≡ true = rw e (db.same_refl v) in ground arith,
  HasDistinctKeys-others db v rels (ground arith),
)

module _ (base : String) where
  checksum : String → Draft → Option String
  checksum v m = get v m.sha256_checksums

  checksum-add_ne :
      (v : String) (m : Draft) (r : Release)
      → IsOther v r
      → checksum v (add_release base m r) ≡ checksum v m
  unfolding checksum
  checksum-add_ne v m r other = elim (Bool-cases (r.sha256_checksum == "")) [
    | inl empty ↦ rw empty refl
    | inr given ↦ rw given (get-put_ne r.version v r.sha256_checksum m.sha256_checksums other)
  ]

  checksum-add_self :
      (m : Draft) (r : Release)
      → checksum r.version m ≡ none
      → checksum r.version (add_release base m r) ≡ null_string r.sha256_checksum
  unfolding checksum
  checksum-add_self m r fresh = elim (Bool-cases (r.sha256_checksum == "")) [
    | inl empty ↦ rw empty fresh
    | inr given ↦ rw given (get-put_self r.version r.sha256_checksum m.sha256_checksums)
  ]

  checksum-absent :
      (v : String) (m : Draft) (rels : List Release)
      → All (IsOther v) rels
      → checksum v (add_releases base m rels) ≡ checksum v m
  unfolding add_releases
  checksum-absent v m [] h = refl
  checksum-absent v m (r ∷ rels) (other, h) =
      checksum-absent v (add_release base m r) rels h ∙ checksum-add_ne v m r other

  checksum-listed :
      (db : Database) (m : Draft) (rels : List Release)
      → Slots.HasDistinctKeys db version_of rels
      → All (λ r. checksum r.version m ≡ none) rels
      → All
          (λ r. checksum r.version (add_releases base m rels) ≡ null_string r.sha256_checksum)
          rels
  unfolding add_releases
  checksum-listed db m [] d h = tt
  checksum-listed db m (r ∷ rels) (fresh, d) (here, h) =
      let others = HasDistinctKeys-others db r.version rels fresh in
      (
        checksum-absent r.version (add_release base m r) rels others ∙ checksum-add_self m r here,
        checksum-listed db (add_release base m r) rels d (still_absent m r rels others h),
      )
    where
      still_absent :
          (m : Draft) (r : Release) (rels : List Release)
          → All (IsOther r.version) rels
          → All (λ q. checksum q.version m ≡ none) rels
          → All (λ q. checksum q.version (add_release base m r) ≡ none) rels
      still_absent m r [] others h = tt
      still_absent m r (q ∷ rels) (other, others) (here, h) = (
        checksum-add_ne q.version m r (λ e. other (sym e)) ∙ here,
        still_absent m r rels others h,
      )

blank-empty :
    (base : String) (rels : List Release) → All (λ r. checksum base r.version blank ≡ none) rels
unfolding checksum
blank-empty base [] = tt
blank-empty base (r ∷ rels) = (refl, blank-empty base rels)

-- Where the versions are distinct, the manifest holds for each listed release its checksum, and no
-- entry for one whose checksum is empty.
pub build_manifest-checksums :
    (db : Database) (base : String) (rels : List Release)
    → Slots.HasDistinctKeys db version_of rels
    → All
        (λ r.
          get r.version (build_manifest rels base).sha256_checksums ≡ null_string r.sha256_checksum)
        rels
unfolding build_manifest checksum
build_manifest-checksums db base rels d =
    checksum-listed base db blank rels d (blank-empty base rels)
