-- ===== src/UpdaterClient/Versions.antt =====
-- compareDottedVersions: the numeric prefixes of two versions, in order.
use Prim.Native.Char.{code}
use emly_go_api.Base.{
  ℕ, zero, suc, Bool, true, false, not, ◌||◌, ltb, Option, none, some, List, [], ◌∷◌, String, ◌==◌,
  string_eq, if◌then◌else◌, nat_beq, length, ◌≡◌, refl, arith, Bool-cases, inl, inr, ap, sym, ◌≢◌,
  Option-cases, ◌∙◌,
}
use emly_go_api.Base.Int.{ℤ, pos, negsuc}
use emly_go_api.UpdaterClient.{Lib}

-- v[:i] at the first `-` or `+`
unfoldable pub before_suffix : String → String
before_suffix String.[] = ""
before_suffix (String.◌∷◌ c s) =
    let rest = before_suffix s in
    if nat_beq (code c) b'-' || nat_beq (code c) b'+' then "" else String.◌∷◌ c rest

absurd_none : {A : Type 0} {a : A} {P : Type 0} → none ≡ some a → P
absurd_none e = cc

-- strings.Split(v, ".")
unfoldable pub split_dots : String → List String
split_dots String.[] = "" ∷ []
split_dots (String.◌∷◌ c s) = elim (split_dots s) [
  | [] ↦ []
  | field ∷ fields ↦
      if nat_beq (code c) b'.' then "" ∷ field ∷ fields else String.◌∷◌ c field ∷ fields
]

-- A number that is not negative.
unfoldable pub part_of : Lib → String → Option ℕ
part_of lib field = elim (lib.atoi field) [
  | none ↦ none
  | some (negsuc n) ↦ none
  | some (pos n) ↦ some n
]

-- The loop over the fields: only the first three are read, and a missing one is 0.
unfoldable pub read_parts : Lib → List String → ℕ → Option (List ℕ)
read_parts lib fields zero = some []
read_parts lib [] (suc n) = elim (read_parts lib [] n) [
  | none ↦ none
  | some parts ↦ some (0 ∷ parts)
]
read_parts lib (field ∷ fields) (suc n) = elim (part_of lib field) [
  | none ↦ none
  | some part ↦ elim (read_parts lib fields n) [ none ↦ none | some parts ↦ some (part ∷ parts) ]
]

-- dottedVersionParts
unfoldable pub dotted_version_parts : Lib → String → Option (List ℕ)
dotted_version_parts lib v =
    let fields = split_dots (before_suffix v) in
    if nat_beq (length fields) 0 || ltb 4 (length fields) then none else read_parts lib fields 3

-- The loop of compareDottedVersions over two arrays of one length.
unfoldable pub compare_parts : List ℕ → List ℕ → ℤ
compare_parts (a ∷ pa) (b ∷ pb) =
    let rest = compare_parts pa pb in if ltb a b then negsuc 0 else if ltb b a then pos 1 else rest
compare_parts _ _ = pos 0

-- compareDottedVersions: `none` where ok is false.
unfoldable pub compare_dotted_versions : Lib → String → String → Option ℤ
compare_dotted_versions lib a b = elim (dotted_version_parts lib a) [
  | none ↦ none
  | some pa ↦ elim (dotted_version_parts lib b) [
    | none ↦ none
    | some pb ↦ some (compare_parts pa pb)
  ]
]

abbrev pub logged_user_session_min_updater_version : String
logged_user_session_min_updater_version = "1.6.2"

-- reportsNobodyLoggedOn
unfoldable pub reports_nobody_logged_on : Lib → String → String → Bool
unfolding compare_dotted_versions
reports_nobody_logged_on lib logged_user ua_version =
    if not (logged_user == "") || ua_version == ""
    then false
    else elim (compare_dotted_versions lib ua_version logged_user_session_min_updater_version) [
      | none ↦ false
      | some (pos n) ↦ true
      | some (negsuc n) ↦ false
    ]

read_parts-length :
    (lib : Lib) (fields : List String) (n : ℕ) (parts : List ℕ)
    → read_parts lib fields n ≡ some parts
    → length parts ≡ n
unfolding read_parts
read_parts-length lib fields zero parts e = ground (arith, e)
read_parts-length lib [] (suc n) parts e = elim (Option-cases (read_parts lib [] n)) [
  | inl f ↦ absurd_none (rw f at e)
  | inr (rest, f) ↦
      let same : some (0 ∷ rest) ≡ some parts = rw f at e in
      let ih = read_parts-length lib [] n rest f in ground (arith, same)
]
read_parts-length lib (field ∷ fields) (suc n) parts e = elim (Option-cases (part_of lib field)) [
  | inl f ↦ absurd_none (rw (f, read_parts) at e)
  | inr (part, f) ↦ elim (Option-cases (read_parts lib fields n)) [
    | inl g ↦ absurd_none (rw (f, read_parts, g) at e)
    | inr (rest, g) ↦
        let same : some (part ∷ rest) ≡ some parts = rw (f, read_parts, g) at e in
        let ih = read_parts-length lib fields n rest g in ground (arith, same)
  ]
]

-- The order of arrays of one length is transitive.
compare_parts_trans :
    (pa pb pc : List ℕ)
    → length pa ≡ length pb
    → length pb ≡ length pc
    → compare_parts pa pb ≢ negsuc 0
    → compare_parts pb pc ≢ negsuc 0
    → compare_parts pa pc ≢ negsuc 0
unfolding compare_parts
compare_parts_trans [] pb pc e f h k = h
compare_parts_trans (a ∷ pa) [] pc e f h k = omega (arith, e)
compare_parts_trans (a ∷ pa) (b ∷ pb) [] e f h k = k
compare_parts_trans (a ∷ pa) (b ∷ pb) (c ∷ pc) e f h k = elim (Bool-cases (ltb a b)) [
  | inl lt ↦ absurd (h (rw lt refl))
  | inr ge ↦ elim (Bool-cases (ltb b c)) [
    | inl lt ↦ absurd (k (rw lt refl))
    | inr above ↦ elim (Bool-cases (ltb c a)) [
      | inl gt ↦ let least : ltb a c ≡ false = ground arith in rw (least, gt) (λ e. cc e)
      | inr eq ↦
          let ab : ltb b a ≡ false = ground arith in
          let bc : ltb c b ≡ false = ground arith in
          let ac : ltb a c ≡ false = ground arith in
          rw (ac, eq)
            (compare_parts_trans pa pb pc (omega (arith, e)) (omega (arith, f)) (rw (ge, ab) at h)
              (rw (above, bc) at k))
    ]
  ]
]

-- What a comparison that gives an answer has compared.
compared :
    (lib : Lib) (a b : String) (n : ℤ)
    → compare_dotted_versions lib a b ≡ some n
    → (pa : List ℕ) × (pb : List ℕ) × (dotted_version_parts lib a ≡ some pa)
      × (dotted_version_parts lib b ≡ some pb)
      × (compare_parts pa pb ≡ n)
unfolding compare_dotted_versions
compared lib a b n e = elim (Option-cases (dotted_version_parts lib a)) [
  | inl f ↦ absurd_none (rw (f, compare_dotted_versions) at e)
  | inr (pa, f) ↦ elim (Option-cases (dotted_version_parts lib b)) [
    | inl g ↦ absurd_none (rw (f, compare_dotted_versions, g) at e)
    | inr (pb, g) ↦
        let same : some (compare_parts pa pb) ≡ some n = rw (f, compare_dotted_versions, g) at e in
        (pa, pb, f, g, cc same)
  ]
]

dotted_version_parts-length :
    (lib : Lib) (v : String) (parts : List ℕ)
    → dotted_version_parts lib v ≡ some parts
    → length parts ≡ 3
unfolding dotted_version_parts
dotted_version_parts-length lib v parts e =
    go
      (nat_beq (length (split_dots (before_suffix v))) 0
        || ltb 4 (length (split_dots (before_suffix v))))
      e
  where
    go :
        (many : Bool)
        → (if many then none else read_parts lib (split_dots (before_suffix v)) 3) ≡ some parts
        → length parts ≡ 3
    go true e = absurd_none e
    go false e = read_parts-length lib (split_dots (before_suffix v)) 3 parts e

-- Versions compare in one order: where a is not below b and b is not below c, a and c compare, and a
-- is not below c.
pub compare_dotted_versions_trans :
    (lib : Lib) (a b c : String) (x y : ℤ)
    → compare_dotted_versions lib a b ≡ some x
    → compare_dotted_versions lib b c ≡ some y
    → x ≢ negsuc 0
    → y ≢ negsuc 0
    → (z : ℤ) × (compare_dotted_versions lib a c ≡ some z) × (z ≢ negsuc 0)
unfolding compare_dotted_versions
compare_dotted_versions_trans lib a b c x y e f not_below nor_below =
    let (pa, pb, ea, eb, ex) = compared lib a b x e in
    let (qb, pc, fb, fc, fy) = compared lib b c y f in
    let same : some qb ≡ some pb = sym fb ∙ eb in
    let middle : qb ≡ pb = cc same in
    let la = dotted_version_parts-length lib a pa ea in
    let lb = dotted_version_parts-length lib b pb eb in
    let lc = dotted_version_parts-length lib c pc fc in
    (
      compare_parts pa pc,
      rw (ea, compare_dotted_versions, fc) refl,
      compare_parts_trans pa pb pc (omega (arith, la, lb)) (omega (arith, lb, lc))
          (λ d. not_below (sym ex ∙ d))
          (λ d. nor_below (sym fy ∙ (ap (λ q. compare_parts q pc) middle ∙ d))),
    )
