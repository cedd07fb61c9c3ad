-- ===== src/Updates/Manifest/Offers.antt =====
-- The manifest offers the release that holds each flag, and describes every release.
use emly_go_api.Base.{
  ◌≤◌, Bool, true, false, Option, none, some, List, [], ◌∷◌, String, string_eq, ◌≡◌, refl, ◌∙◌,
  arith, Bool-cases, inl, inr, ap,
}
use emly_go_api.Base.Sql.{find_where}
use emly_go_api.Updates.{Release}
use emly_go_api.Updates.Slots
use emly_go_api.Updates.Requests.{or_else}
use emly_go_api.Updates.Releases.Exclusive.{stable, beta, critical}
use emly_go_api.Updates.Manifest.{
  UpdateManifest, Draft, download_url, add_release, add_releases, blank, build_manifest,
}

-- What the manifest says of the stable, the beta and the critical release.
pub record Offer : Type 0 where
  pub stable_version : String
  pub stable_download : String
  pub min_required_version : String
  pub beta_version : String
  pub beta_download : String
  pub is_critical : Bool
  pub critical_version : String

abbrev pub offer_of : UpdateManifest → Offer
offer_of m = record {
  stable_version = m.stable_version;
  stable_download = m.stable_download;
  min_required_version = m.min_required_version;
  beta_version = m.beta_version;
  beta_download = m.beta_download;
  is_critical = m.is_critical;
  critical_version = m.critical_version;
}

-- The specification of each part: what one release says, and what is said without one.
abbrev pub say {ℓ} : {A : Type ℓ} → A → (Release → A) → Option Release → A
say silent said none = silent
say silent said (some r) = said r

abbrev pub from_stable : String → Option Release → String × String × String
from_stable base =
    say ("", "", "")
      (λ r. (r.version, download_url base r.version, or_else r.min_required_version ""))

abbrev pub from_beta : String → Option Release → String × String
from_beta base = say ("", "") (λ r. (r.version, download_url base r.version))

abbrev pub from_critical : Option Release → Bool × String
from_critical = say (false, "") (λ r. (true, or_else r.critical_version r.version))

abbrev pub offer : String → Option Release → Option Release → Option Release → Offer
offer base s b c = record {
  stable_version = (from_stable base s).0;
  stable_download = (from_stable base s).1;
  min_required_version = (from_stable base s).2;
  beta_version = (from_beta base b).0;
  beta_download = (from_beta base b).1;
  is_critical = (from_critical c).0;
  critical_version = (from_critical c).1;
}

module _ (base : String) where
  -- Releases without a flag leave its part of the manifest.
  stable_part : Draft → String × String × String
  stable_part m = (m.stable_version, m.stable_download, m.min_required_version)

  beta_part : Draft → String × String
  beta_part m = (m.beta_version, m.beta_download)

  critical_part : Draft → Bool × String
  critical_part m = (m.is_critical, m.critical_version)

  -- What part of the manifest a flag rules: the loop changes it only at a row with the flag.
  abbrev IsRuledBy : {A : Type 0} → (Draft → A) → (Release → Bool) → Type 0
  IsRuledBy part flag =
      (m : Draft) (r : Release) → flag r ≡ false → part (add_release base m r) ≡ part m

  part-absent :
      {A : Type 0} (part : Draft → A) (flag : Release → Bool) (m : Draft) (rels : List Release)
      → IsRuledBy part flag
      → Slots.count flag rels ≤ 0
      → part (add_releases base m rels) ≡ part m
  unfolding add_releases
  part-absent part flag m [] ruled h = refl
  part-absent part flag m (r ∷ rels) ruled h =
      part-absent part flag (add_release base m r) rels ruled (ground arith)
      ∙ ruled m r (ground arith)

  -- With one row that has the flag, it says what that row writes, and else what was there.
  part-found :
      {A : Type 0} (part : Draft → A) (flag : Release → Bool) (said : Release → A) (m : Draft)
      (rels : List Release)
      → IsRuledBy part flag
      → ((n : Draft) (r : Release)
          → part n ≡ part m
          → flag r ≡ true
          → part (add_release base n r) ≡ said r)
      → Slots.count flag rels ≤ 1
      → part (add_releases base m rels) ≡ say (part m) said (find_where flag rels)
  unfolding add_releases
  part-found part flag said m [] ruled says h = refl
  part-found part flag said m (r ∷ rels) ruled says h = elim (Bool-cases (flag r)) [
    | inl on ↦
        rw on (
          part-absent part flag (add_release base m r) rels ruled (ground arith) ∙ says m r refl on)
    | inr off ↦
        let same = ruled m r off in
        let rest : part (add_releases base (add_release base m r) rels)
            ≡ say (part (add_release base m r)) said (find_where flag rels) =
          part-found part flag said (add_release base m r) rels ruled (λ n q e. says n q (e ∙ same))
            (ground arith) in
        rw off (rest ∙ ap (λ o. say o said (find_where flag rels)) same)
  ]

  stable_part-found :
      (rels : List Release)
      → Slots.count stable rels ≤ 1
      → stable_part (add_releases base blank rels) ≡ from_stable base (find_where stable rels)
  unfolding stable_part
  stable_part-found rels h =
      part-found stable_part stable _ blank rels (λ m r off. rw off refl)
        (λ m r e on. rw on (
          ap (λ t. (r.version, download_url base r.version, or_else r.min_required_version t.2)) e))
        h

  beta_part-found :
      (rels : List Release)
      → Slots.count beta rels ≤ 1
      → beta_part (add_releases base blank rels) ≡ from_beta base (find_where beta rels)
  unfolding beta_part
  beta_part-found rels h =
      part-found beta_part beta _ blank rels (λ m r off. rw off refl) (λ m r e on. rw on refl) h

  critical_part-found :
      (rels : List Release)
      → Slots.count critical rels ≤ 1
      → critical_part (add_releases base blank rels) ≡ from_critical (find_where critical rels)
  unfolding critical_part
  critical_part-found rels h =
      part-found critical_part critical _ blank rels (λ m r off. rw off refl)
        (λ m r e on. rw on refl) h

-- Where each flag has one holder at most among the listed releases, the manifest offers exactly
-- the holders: their versions, links and minimum version, and nothing for a flag without a holder.
pub build_manifest-offer :
    (base : String) (rels : List Release)
    → Slots.count stable rels ≤ 1
    → Slots.count beta rels ≤ 1
    → Slots.count critical rels ≤ 1
    → offer_of (build_manifest rels base)
      ≡ offer base (find_where stable rels) (find_where beta rels) (find_where critical rels)
unfolding build_manifest stable_part beta_part critical_part
build_manifest-offer base rels hs hb hc =
    cc (
      stable_part-found base rels hs,
      beta_part-found base rels hb,
      critical_part-found base rels hc,
    )
