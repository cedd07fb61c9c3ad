-- ===== src/RemoteConfig/Match/Selects.antt =====
-- `Match` against its description: every list that is given holds a value of the host.
use emly_go_api.Base.{
  Bool, true, false, ◌||◌, Option, none, some, List, [], ◌∷◌, String, ◌≡◌, ◌≢◌, refl, ◌⊎◌, ◌↔◌, inl,
  inr, arith, Bool-cases,
}
use emly_go_api.RemoteConfig.Document.{Selector}
use emly_go_api.RemoteConfig.Validate.Sections.{Lib}
use emly_go_api.RemoteConfig.Match.{
  Host, contains_fold, dc_name_matches_any, subnets_contain_any, check_key, is_all, result, match,
}

-- A list that is given holds a value of the host.
abbrev pub Accepts : List String → Bool → Type 0
Accepts list hit = (list ≡ []) ⊎ (hit ≡ true)

abbrev given : List String → Bool
given [] = false
given (x ∷ xs) = true

given-ne : (list : List String) → given list ≡ true → list ≢ []
given-ne [] e same = cc
given-ne (x ∷ xs) e same = cc

ne-given : (list : List String) → list ≢ [] → given list ≡ true
ne-given [] h = absurd (h refl)
ne-given (x ∷ xs) h = refl

-- A block of Match that goes on, backwards.
check_key_passed :
    (list : List String) (hit : Bool) (before : Option Bool) (m : Bool)
    → check_key list hit before ≡ some m
    → (m₀ : Bool) × (before ≡ some m₀) × Accepts list hit × (m ≡ (m₀ || given list))
check_key_passed list hit none m e = cc
check_key_passed [] hit (some m₀) m e = (m₀, refl, inl refl, ground arith)
check_key_passed (x ∷ xs) true (some m₀) m e = (m₀, refl, inr refl, ground arith)
check_key_passed (x ∷ xs) false (some m₀) m e = cc

-- And forwards.
check_key_passes :
    (list : List String) (hit : Bool) (m : Bool)
    → Accepts list hit
    → check_key list hit (some m) ≡ some (m || given list)
check_key_passes [] hit m a = ground arith
check_key_passes (x ∷ xs) hit m (inl e) = cc
check_key_passes (x ∷ xs) hit m (inr e) = ground arith

result-true : (o : Option Bool) → result o ≡ true → o ≡ some true
result-true none e = cc
result-true (some m) e = ground arith

pub record Selects (lib : Lib) (sel : Selector) (h : Host) : Type 0 where
  pub hwids : Accepts sel.hwids (contains_fold lib sel.hwids h.hwid)
  pub hostnames : Accepts sel.hostnames (contains_fold lib sel.hostnames h.hostname)
  pub dcs : Accepts sel.dcs (dc_name_matches_any lib sel.dcs h.dc)
  pub subnets : Accepts sel.subnets (subnets_contain_any lib sel.subnets h.ips)
  pub domains : Accepts sel.domains (contains_fold lib sel.domains h.domain)
  pub some_key :
      (sel.hwids ≢ [])
      ⊎ (sel.hostnames ≢ [])
      ⊎ (sel.dcs ≢ [])
      ⊎ (sel.subnets ≢ [])
      ⊎ (sel.domains ≢ [])

-- matchedAnyKey at the end of Match.
abbrev any_given : Selector → Bool
any_given sel =
    false
    || given sel.hwids
    || given sel.hostnames
    || given sel.dcs
    || given sel.subnets
    || given sel.domains

abbrev SomeKey : Selector → Type 0
SomeKey sel =
    (sel.hwids ≢ [])
    ⊎ (sel.hostnames ≢ [])
    ⊎ (sel.dcs ≢ [])
    ⊎ (sel.subnets ≢ [])
    ⊎ (sel.domains ≢ [])

some_given : (sel : Selector) → any_given sel ≡ true → SomeKey sel
some_given sel e = elim (Bool-cases (given sel.hwids)) [
  | inl w ↦ inl (given-ne sel.hwids w)
  | inr w ↦ elim (Bool-cases (given sel.hostnames)) [
    | inl n ↦ inr (inl (given-ne sel.hostnames n))
    | inr n ↦ elim (Bool-cases (given sel.dcs)) [
      | inl c ↦ inr (inr (inl (given-ne sel.dcs c)))
      | inr c ↦ elim (Bool-cases (given sel.subnets)) [
        | inl s ↦ inr (inr (inr (inl (given-ne sel.subnets s))))
        | inr s ↦ inr (inr (inr (inr (given-ne sel.domains (ground arith)))))
      ]
    ]
  ]
]

given_some : (sel : Selector) → SomeKey sel → any_given sel ≡ true
given_some sel (inl h) = ground (arith, ne-given sel.hwids h)
given_some sel (inr (inl h)) = ground (arith, ne-given sel.hostnames h)
given_some sel (inr (inr (inl h))) = ground (arith, ne-given sel.dcs h)
given_some sel (inr (inr (inr (inl h)))) = ground (arith, ne-given sel.subnets h)
given_some sel (inr (inr (inr (inr h)))) = ground (arith, ne-given sel.domains h)

module _ (lib : Lib) (sel : Selector) (h : Host) where
  match-Selects : match lib sel h ≡ true → is_all sel.all ≡ false → Selects lib sel h
  unfolding match
  match-Selects e plain =
      let passed = result-true _ (rw plain at e) in
      let (m₄, e₄, domains, d) = check_key_passed sel.domains _ _ true passed in
      let (m₃, e₃, subnets, s) = check_key_passed sel.subnets _ _ m₄ e₄ in
      let (m₂, e₂, dcs, c) = check_key_passed sel.dcs _ _ m₃ e₃ in
      let (m₁, e₁, hostnames, n) = check_key_passed sel.hostnames _ _ m₂ e₂ in
      let (m₀, e₀, hwids, w) = check_key_passed sel.hwids _ (some false) m₁ e₁ in
      record {
        hwids = hwids;
        hostnames = hostnames;
        dcs = dcs;
        subnets = subnets;
        domains = domains;
        some_key = some_given sel (ground arith);
      }

  Selects-match : Selects lib sel h → match lib sel h ≡ true
  unfolding match
  Selects-match s = elim (Bool-cases (is_all sel.all)) [
    | inl all ↦ rw all
    | inr plain ↦
        rw
          (
            plain,
            check_key_passes sel.hwids _ false s.hwids,
            check_key_passes sel.hostnames _ _ s.hostnames,
            check_key_passes sel.dcs _ _ s.dcs,
            check_key_passes sel.subnets _ _ s.subnets,
            check_key_passes sel.domains _ _ s.domains,
          )
          (given_some sel s.some_key)
  ]

match_all : (lib : Lib) (sel : Selector) (h : Host) → sel.all ≡ some true → match lib sel h ≡ true
unfolding match
match_all lib sel h all = ground arith

all_cases : (o : Option Bool) → is_all o ≡ true → o ≡ some true
all_cases none e = cc
all_cases (some b) e = ground arith

-- Match holds exactly for "all: true", or where some list is given and every list that is given
-- holds a value of the host.
pub match_iff :
    (lib : Lib) (sel : Selector) (h : Host)
    → (match lib sel h ≡ true) ↔ ((sel.all ≡ some true) ⊎ Selects lib sel h)
match_iff lib sel h = (
  λ e. elim (Bool-cases (is_all sel.all)) [
    | inl all ↦ inl (all_cases sel.all all)
    | inr plain ↦ inr (match-Selects lib sel h e plain)
  ],
  λ w. elim w [ inl all ↦ match_all lib sel h all | inr s ↦ Selects-match lib sel h s ],
)
