-- ===== src/RemoteConfig/Validate/Soundness.antt =====
-- A document with no problem has the references that its readers follow.
use emly_go_api.Base.{
  ℕ, suc, Bool, true, false, not, Option, none, some, List, [], ◌∷◌, ◌++◌, String, ◌==◌, string_eq,
  if◌then◌else◌, ◌≡◌, ◌≢◌, refl, inl, inr, arith, Bool-cases, Option-cases, All, ap,
}
use emly_go_api.Base.Int.{ℤ, pos, negsuc}
use emly_go_api.RemoteConfig.Document.{
  Document, Problem, problemf, Site, IpcVersion, IpcProtocol, find,
}
use mathlib.Core.List.{Memᴰ}
use emly_go_api.RemoteConfig.Match.{Host, resolve_site}
use emly_go_api.RemoteConfig.Match.Sites.{Resolved, resolve_site-Resolved}
use emly_go_api.RemoteConfig.MergePatch.Apply.{Codec}
use emly_go_api.RemoteConfig.Validate.{parse, shape_problems}
use emly_go_api.RemoteConfig.Validate.Sections.{Lib, when, validate_cidr}
use emly_go_api.RemoteConfig.Validate.References.{
  validate_top, validate_servers, validate_urls, validate_ipc_protocol, validate_versions,
  validate_default, validate_dc_lookup_map, validate_sites, validate_site, validate_subnets,
  validate_backups, has_server, err_problem, is_empty, is_one,
}

abbrev pub IsKnown : List (String × String) → String → Type 0
IsKnown servers name = (url : String) × (find name servers ≡ some url)

pub record SiteIsValid (lib : Lib) (servers : List (String × String)) (site : Site) : Type 0 where
  pub has_subnet : site.internal_subnets ≢ []
  pub subnets : All (λ cidr. validate_cidr lib cidr ≡ none) site.internal_subnets
  pub base : IsKnown servers site.base_server
  pub backups : All (IsKnown servers) site.backup_server

-- The default protocol version is in the table, and enabled.
abbrev pub ProtocolIsValid : Lib → Option IpcProtocol → Type 0
ProtocolIsValid lib none = Unit
ProtocolIsValid lib (some ipc) =
    (v : IpcVersion) × (find (lib.itoa ipc.default_version) ipc.versions ≡ some v)
    × (v.enabled ≡ true)

pub record IsValid (lib : Lib) (doc : Document) : Type 0 where
  pub schema : doc.schema_version ≡ pos 1
  pub default_server : IsKnown doc.servers doc.default_server
  pub sites : All (λ e. SiteIsValid lib doc.servers e.1) doc.dc_lookup_map
  pub protocol : ProtocolIsValid lib doc.ipc_protocol

append_nil_left : (xs ys : List Problem) → xs ++ ys ≡ [] → xs ≡ []
append_nil_left [] ys e = refl
append_nil_left (x ∷ xs) ys e = cc

append_nil_right : (xs ys : List Problem) → xs ++ ys ≡ [] → ys ≡ []
append_nil_right [] ys e = e
append_nil_right (x ∷ xs) ys e = cc

when_nil : (b : Bool) (path message : String) → when b path message ≡ [] → b ≡ false
when_nil true path message e = cc
when_nil false path message e = refl

not_empty : (l : List String) → is_empty l ≡ false → l ≢ []
not_empty [] e = cc
not_empty (x ∷ xs) e = cc

is_known :
    (servers : List (String × String)) (name : String)
    → has_server servers name ≡ true
    → IsKnown servers name
is_known servers name e = elim (Option-cases (find name servers)) [
  | inl absent ↦ cc (rw absent at e)
  | inr found ↦ found
]

-- The two checks of a required reference.
reference-IsKnown :
    (servers : List (String × String)) (name path₁ m₁ path₂ m₂ : String)
    → (if name == "" then problemf path₁ m₁ ∷ [] else when (not (has_server servers name)) path₂ m₂)
      ≡ []
    → IsKnown servers name
reference-IsKnown servers name path₁ m₁ path₂ m₂ e = elim (Bool-cases (name == "")) [
  | inl missing ↦ cc (rw missing at e)
  | inr there ↦
      let known = when_nil (not (has_server servers name)) path₂ m₂ (rw there at e) in
      is_known servers name (ground arith)
]

module _ (lib : Lib) where
  subnets_valid :
      (path : String) (cidrs : List String)
      → validate_subnets lib path cidrs ≡ []
      → All (λ cidr. validate_cidr lib cidr ≡ none) cidrs
  unfolding validate_subnets
  subnets_valid path [] e = tt
  subnets_valid path (cidr ∷ rest) e = (
    no_err path (validate_cidr lib cidr) (append_nil_left _ (validate_subnets lib path rest) e),
    subnets_valid path rest (append_nil_right (err_problem path (validate_cidr lib cidr)) _ e),
  )
    where
      no_err : (p : String) (o : Option String) → err_problem p o ≡ [] → o ≡ none
      no_err p none e = refl
      no_err p (some m) e = cc

  backups-IsKnown :
      (servers : List (String × String)) (path : String) (i : ℕ) (refs : List String)
      → validate_backups lib servers path i refs ≡ []
      → All (IsKnown servers) refs
  unfolding validate_backups
  backups-IsKnown servers path i [] e = tt
  backups-IsKnown servers path i (ref ∷ rest) e =
      let known = when_nil (not (has_server servers ref)) _ _ (append_nil_left _ _ e) in
      (
        is_known servers ref (ground arith),
        backups-IsKnown servers path (suc i) rest (append_nil_right _ _ e),
      )

  site_valid :
      (servers : List (String × String)) (dc : String) (site : Site)
      → validate_site lib servers dc site ≡ []
      → SiteIsValid lib servers site
  unfolding validate_site
  site_valid servers dc site e =
      let tail₁ = append_nil_right _ _ e in
      let tail₂ = append_nil_right _ _ tail₁ in
      record {
        has_subnet =
            not_empty site.internal_subnets
              (when_nil (is_empty site.internal_subnets) _ _ (append_nil_left _ _ e));
        subnets = subnets_valid _ site.internal_subnets (append_nil_left _ _ tail₁);
        base = reference-IsKnown servers site.base_server _ _ _ _ (append_nil_left _ _ tail₂);
        backups = backups-IsKnown servers _ 0 site.backup_server (append_nil_right _ _ tail₂);
      }

  sites_valid :
      (servers : List (String × String)) (sites : List (String × Site))
      → validate_sites lib servers sites ≡ []
      → All (λ e. SiteIsValid lib servers e.1) sites
  unfolding validate_sites
  sites_valid servers [] e = tt
  sites_valid servers ((dc, site) ∷ rest) e = (
    site_valid servers dc site (append_nil_left _ _ e),
    sites_valid servers rest (append_nil_right (validate_site lib servers dc site) _ e),
  )

  protocol_valid :
      (ipc : Option IpcProtocol) → validate_ipc_protocol lib ipc ≡ [] → ProtocolIsValid lib ipc
  unfolding validate_ipc_protocol
  protocol_valid none e = tt
  protocol_valid (some ipc) e =
      go (find (lib.itoa ipc.default_version) ipc.versions)
        (append_nil_right (validate_versions lib ipc.versions) _ e)
    where
      go :
          (o : Option IpcVersion)
          → validate_default lib o ≡ []
          → (v : IpcVersion) × (o ≡ some v) × (v.enabled ≡ true)
      go none h = cc
      go (some v) h = (v, refl, ground (arith, when_nil (not v.enabled) _ _ h))

  default-IsKnown :
      (doc : Document) → validate_servers lib doc ≡ [] → IsKnown doc.servers doc.default_server
  unfolding validate_servers
  default-IsKnown doc e =
      reference-IsKnown doc.servers doc.default_server _ _ _ _
        (append_nil_right (validate_urls lib doc.servers) _ (append_nil_right _ _ e))

  sites_valid_map :
      (doc : Document)
      → validate_dc_lookup_map lib doc ≡ []
      → All (λ e. SiteIsValid lib doc.servers e.1) doc.dc_lookup_map
  unfolding validate_dc_lookup_map
  sites_valid_map doc e = sites_valid doc.servers doc.dc_lookup_map e

  is_one_lem : (n : ℤ) → is_one n ≡ true → n ≡ pos 1
  is_one_lem (pos n) e = ground arith
  is_one_lem (negsuc n) e = ground arith

  schema_one : (doc : Document) → validate_top lib doc ≡ [] → doc.schema_version ≡ pos 1
  unfolding validate_top
  schema_one doc e =
      is_one_lem doc.schema_version
        (ground (arith, when_nil (not (is_one doc.schema_version)) _ _ (append_nil_left _ _ e)))

  shapes_IsValid : (doc : Document) → shape_problems lib doc ≡ [] → IsValid lib doc
  unfolding shape_problems
  shapes_IsValid doc e =
      let after_top = append_nil_right (validate_top lib doc) _ e in
      let after_servers = append_nil_right (validate_servers lib doc) _ after_top in
      let after_ipc =
        append_nil_right (validate_ipc_protocol lib doc.ipc_protocol) _ after_servers in
      record {
        schema = schema_one doc (append_nil_left _ _ e);
        default_server = default-IsKnown doc (append_nil_left _ _ after_top);
        sites = sites_valid_map doc (append_nil_left _ _ after_ipc);
        protocol = protocol_valid doc.ipc_protocol (append_nil_left _ _ after_servers);
      }

-- If Parse reports no problem for a document, its schema version is 1, its default server is one of
-- its servers, each site has at least one subnet, only subnets that validateCIDR accepts, and a base
-- server and backup servers that are servers of the document, and the default protocol version, where
-- there is a protocol table, is an entry of it that is enabled.
pub parse-IsValid :
    (lib : Lib) (codec : Codec) (doc : Document) → parse lib codec doc ≡ [] → IsValid lib doc
unfolding parse
parse-IsValid lib codec doc e =
    shapes_IsValid lib doc (append_nil_left (shape_problems lib doc) _ e)

-- For a document for which Parse reports no problem, every server name that ResolveSite hands to a
-- host, the default server or a site's base and backup servers, is a server of the document.
pub resolve_site-IsKnown :
    (lib : Lib) (codec : Codec) (doc : Document) (h : Host)
    → parse lib codec doc ≡ []
    → All (IsKnown doc.servers) (resolve_site lib doc h).1
resolve_site-IsKnown lib codec doc h e =
    let valid = parse-IsValid lib codec doc e in
    chain_known lib h doc.servers doc.dc_lookup_map doc.default_server valid.sites
      valid.default_server (resolve_site lib doc h) (resolve_site-Resolved lib doc h)
  where
    all_at :
        (lib : Lib) (servers : List (String × String)) (sites : List (String × Site)) (dc : String)
        (s : Site)
        → All (λ e. SiteIsValid lib servers e.1) sites
        → Memᴰ (dc, s) sites
        → SiteIsValid lib servers s
    all_at lib servers [] dc s vs m = elim m [ ]
    all_at lib servers (x ∷ xs) dc s (v, vs) (Memᴰ.head e) = rw (ap (λ p. p.1) e) v
    all_at lib servers (x ∷ xs) dc s (v, vs) (Memᴰ.tail m) = all_at lib servers xs dc s vs m

    chain_known :
        (lib : Lib) (h : Host) (servers : List (String × String)) (sites : List (String × Site))
        (d : String)
        → All (λ e. SiteIsValid lib servers e.1) sites
        → IsKnown servers d
        → (r : Option String × List String) → Resolved lib h sites d r
        → All (IsKnown servers) r.1
    chain_known lib h servers sites d vs known (none, chain) (e, all) = rw e (known, tt)
    chain_known lib h servers sites d vs known (some dc, chain) (s, m, applies, e) =
        let v = all_at lib servers sites dc s vs m in rw e (v.base, v.backups)
