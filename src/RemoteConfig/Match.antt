-- ===== src/RemoteConfig/Match.antt =====
-- internal/remoteconfig/match.go: selectors and sites.
pub mod Selects
pub mod Sites
use emly_go_api.Base.{
  ℕ, Bool, true, false, ◌&&◌, ◌||◌, not, Option, none, some, List, [], ◌∷◌, String, ◌==◌, string_eq,
  if◌then◌else◌, ltb,
}
use emly_go_api.Base.Text.{before_byte}
use emly_go_api.Base.Net.{Network, Ip, contains}
use emly_go_api.RemoteConfig.Document.{Selector, Site, Document}
use emly_go_api.RemoteConfig.Validate.Sections.{Lib}

-- Host. A zero Now is `none`.
pub record Host : Type 0 where
  pub hwid : String
  pub hostname : String
  pub dc : String
  pub domain : String
  pub ips : List String
  pub now : Option ℕ

abbrev pub any {ℓ} : {A : Type ℓ} → (A → Bool) → List A → Bool
any p [] = false
any p (x ∷ xs) = p x || any p xs

-- dcShortName
unfoldable pub dc_short_name : String → String
unfolding before_byte
dc_short_name name = before_byte b'.' name

-- One of the five blocks of Match: `none` is `return false`, and `some` carries matchedAnyKey on.
abbrev pub check_key : List String → Bool → Option Bool → Option Bool
check_key list hit none = none
check_key [] hit (some matched) = some matched
check_key (x ∷ xs) hit (some matched) = if hit then some true else none

abbrev pub is_all : Option Bool → Bool
is_all none = false
is_all (some all) = all

abbrev pub result : Option Bool → Bool
result none = false
result (some matched_any_key) = matched_any_key

module _ (lib : Lib) where
  unfoldable pub contains_fold : List String → String → Bool
  contains_fold list s = not (s == "") && any (λ item. lib.equal_fold item s) list

  unfoldable pub dc_name_matches_any : List String → String → Bool
  unfolding dc_short_name
  dc_name_matches_any list dc =
      not (dc == "") && any (λ item. lib.equal_fold (dc_short_name item) (dc_short_name dc)) list

  -- Whether a network holds an address, where the address is read at all.
  abbrev pub holds : Network → String → Bool
  holds network ip_str = elim (lib.net.parse_ip ip_str) [
    | none ↦ false
    | some ip ↦ contains network ip
  ]

  abbrev pub cidr_holds_any : List String → String → Bool
  cidr_holds_any ips cidr = elim (lib.net.parse_cidr cidr) [
    | none ↦ false
    | some network ↦ any (holds network) ips
  ]

  unfoldable pub subnets_contain_any : List String → List String → Bool
  subnets_contain_any cidrs ips = any (cidr_holds_any ips) cidrs

  -- Match
  unfoldable pub match : Selector → Host → Bool
  unfolding contains_fold dc_name_matches_any subnets_contain_any
  match sel h =
      if is_all sel.all
      then true
      else result (
          check_key sel.domains (contains_fold sel.domains h.domain) (
            check_key sel.subnets (subnets_contain_any sel.subnets h.ips) (
              check_key sel.dcs (dc_name_matches_any sel.dcs h.dc) (
                check_key sel.hostnames (contains_fold sel.hostnames h.hostname)
                  (check_key sel.hwids (contains_fold sel.hwids h.hwid) (some false))))))

  -- `time.Parse` of an until that is there, and not empty.
  unfoldable pub until_expired : Option String → ℕ → Bool
  until_expired none now = false
  until_expired (some until) now =
      not (until == "") && (elim (lib.parse_time until) [ none ↦ false | some t ↦ ltb t now ])

  -- The condition of the three `continue`s of ResolveSite.
  abbrev pub site_applies : Host → String → Site → Bool
  site_applies h dc s =
      s.enabled
      && (dc_name_matches_any (dc ∷ []) h.dc && subnets_contain_any s.internal_subnets h.ips)

  -- The loop of ResolveSite, in the order of its list.
  unfoldable pub resolve_in : Host → List (String × Site) → String → Option String × List String
  resolve_in h [] default_server = (none, default_server ∷ [])
  resolve_in h ((dc, s) ∷ sites) default_server =
      if site_applies h dc s
      then (some dc, s.base_server ∷ s.backup_server)
      else resolve_in h sites default_server

  unfoldable pub resolve_site : Document → Host → Option String × List String
  unfolding resolve_in
  resolve_site doc h = resolve_in h doc.dc_lookup_map doc.default_server
