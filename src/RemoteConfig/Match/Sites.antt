-- ===== src/RemoteConfig/Match/Sites.antt =====
-- `ResolveSite` picks an enabled site that the host belongs to, or the default server.
use emly_go_api.Base.{
  Bool, ◌≢◌, string_eq, Option-cases, true, false, Option, none, some, List, [], ◌∷◌, String, ◌≡◌,
  refl, inl, inr, Bool-cases, All, arith,
}
use mathlib.Core.List.{Memᴰ}
use emly_go_api.RemoteConfig.Document.{Site, Document}
use emly_go_api.RemoteConfig.Validate.Sections.{Lib}
use text.Mathlib.TextEquality.{eq_iff}
use emly_go_api.Base.Net.{Ip, Network, contains}
use emly_go_api.RemoteConfig.Match.{
  any, holds, cidr_holds_any, dc_short_name, Host, site_applies, resolve_in, resolve_site,
  dc_name_matches_any, subnets_contain_any,
}

any-Mem {ℓ} :
    {A : Type ℓ} (p : A → Bool) (xs : List A) → any p xs ≡ true → (x : A) × Memᴰ x xs × (p x ≡ true)
any-Mem p [] e = cc
any-Mem p (x ∷ xs) e = elim (Bool-cases (p x)) [
  | inl hit ↦ (x, Memᴰ.head refl, hit)
  | inr miss ↦ let (y, m, h) = any-Mem p xs (ground arith) in (y, Memᴰ.tail m, h)
]

Mem-any {ℓ} :
    {A : Type ℓ} (p : A → Bool) (xs : List A) (x : A) → Memᴰ x xs → p x ≡ true → any p xs ≡ true
Mem-any p [] x m h = elim m [ ]
Mem-any p (y ∷ xs) x (Memᴰ.head e) h = rw (← e, h) refl
Mem-any p (y ∷ xs) x (Memᴰ.tail m) h = ground (arith, Mem-any p xs x m h)

-- A subnet of the site, an address of the host, and what they are read as.
pub record Inside (lib : Lib) (h : Host) (s : Site) : Type 0 where
  pub cidr : String
  pub ip : String
  pub network : Network
  pub address : Ip
  pub listed : Memᴰ cidr s.internal_subnets
  pub sent : Memᴰ ip h.ips
  pub read_cidr : lib.net.parse_cidr cidr ≡ some network
  pub read_ip : lib.net.parse_ip ip ≡ some address
  pub inside : contains network address ≡ true

-- The host belongs to the site: the site is enabled, the host has a controller whose short name is
-- the site's, and one of its subnets holds one of the host's addresses.
pub record BelongsTo (lib : Lib) (h : Host) (dc : String) (s : Site) : Type 0 where
  pub enabled : s.enabled ≡ true
  pub has_controller : h.dc ≢ ""
  pub named : lib.equal_fold (dc_short_name dc) (dc_short_name h.dc) ≡ true
  pub held : Inside lib h s

holds-read :
    (lib : Lib) (network : Network) (ip : String)
    → holds lib network ip ≡ true
    → (address : Ip) × (lib.net.parse_ip ip ≡ some address) × (contains network address ≡ true)
holds-read lib network ip e = elim (Option-cases (lib.net.parse_ip ip)) [
  | inl unread ↦ ground arith
  | inr (address, read) ↦ (address, read, rw (read, holds) at e)
]

cidr_holds_any-read :
    (lib : Lib) (ips : List String) (cidr : String)
    → cidr_holds_any lib ips cidr ≡ true
    → (network : Network) × (lib.net.parse_cidr cidr ≡ some network)
      × (any (holds lib network) ips ≡ true)
cidr_holds_any-read lib ips cidr e = elim (Option-cases (lib.net.parse_cidr cidr)) [
  | inl unread ↦ ground arith
  | inr (network, read) ↦ (network, read, rw (read, cidr_holds_any) at e)
]

subnets-Inside :
    (lib : Lib) (h : Host) (s : Site)
    → subnets_contain_any lib s.internal_subnets h.ips ≡ true
    → Inside lib h s
unfolding subnets_contain_any
subnets-Inside lib h s e =
    let (cidr, listed, hit) = any-Mem (cidr_holds_any lib h.ips) s.internal_subnets e in
    let (network, read_cidr, some_ip) = cidr_holds_any-read lib h.ips cidr hit in
    let (ip, sent, in_network) = any-Mem (holds lib network) h.ips some_ip in
    let (address, read_ip, inside) = holds-read lib network ip in_network in
    record {
      cidr = cidr;
      ip = ip;
      network = network;
      address = address;
      listed = listed;
      sent = sent;
      read_cidr = read_cidr;
      read_ip = read_ip;
      inside = inside;
    }

Inside-subnets :
    (lib : Lib) (h : Host) (s : Site)
    → Inside lib h s
    → subnets_contain_any lib s.internal_subnets h.ips ≡ true
unfolding subnets_contain_any
Inside-subnets lib h s b = Mem-any (cidr_holds_any lib h.ips) s.internal_subnets b.cidr b.listed (
    rw (b.read_cidr, cidr_holds_any)
      (Mem-any (holds lib b.network) h.ips b.ip b.sent (rw (b.read_ip, holds) b.inside)))

site_applies-BelongsTo :
    (lib : Lib) (h : Host) (dc : String) (s : Site)
    → site_applies lib h dc s ≡ true
    → BelongsTo lib h dc s
unfolding dc_name_matches_any
site_applies-BelongsTo lib h dc s e = record {
  enabled = ground arith;
  has_controller = ground (arith, eq_iff h.dc "");
  named = ground arith;
  held = subnets-Inside lib h s (ground arith);
}

not-BelongsTo :
    (lib : Lib) (h : Host) (dc : String) (s : Site)
    → site_applies lib h dc s ≡ false
    → ¬ BelongsTo lib h dc s
unfolding dc_name_matches_any
not-BelongsTo lib h dc s e b =
    ground
      (arith, b.enabled, b.named, b.has_controller, eq_iff h.dc "", Inside-subnets lib h s b.held)

-- What the result says of the sites.
abbrev pub Resolved :
    Lib → Host → List (String × Site) → String → Option String × List String → Type 0
Resolved lib h sites default_server (none, chain) =
    (chain ≡ default_server ∷ []) × All (λ e. ¬ BelongsTo lib h e.0 e.1) sites
Resolved lib h sites default_server (some dc, chain) =
    (s : Site) × Memᴰ (dc, s) sites
    × BelongsTo lib h dc s
    × (chain ≡ s.base_server ∷ s.backup_server)

Resolved-cons :
    (lib : Lib) (h : Host) (dc : String) (s : Site) (sites : List (String × Site))
    (default_server : String)
    → ¬ BelongsTo lib h dc s
    → (r : Option String × List String) → Resolved lib h sites default_server r
    → Resolved lib h ((dc, s) ∷ sites) default_server r
Resolved-cons lib h dc s sites default_server miss (none, chain) (e, all) = (e, (miss, all))
Resolved-cons lib h dc s sites default_server miss (some name, chain) (found, m, applies, e) =
    (found, Memᴰ.tail m, applies, e)

resolve_in-Resolved :
    (lib : Lib) (h : Host) (sites : List (String × Site)) (default_server : String)
    → Resolved lib h sites default_server (resolve_in lib h sites default_server)
unfolding resolve_in
resolve_in-Resolved lib h [] default_server = (refl, tt)
resolve_in-Resolved lib h ((dc, s) ∷ sites) default_server =
    elim (Bool-cases (site_applies lib h dc s)) [
      | inl hit ↦
          rw (hit, resolve_in) (s, Memᴰ.head refl, site_applies-BelongsTo lib h dc s hit, refl)
      | inr miss ↦
          rw (miss, resolve_in)
            (Resolved-cons lib h dc s sites default_server (not-BelongsTo lib h dc s miss)
              (resolve_in lib h sites default_server)
              (resolve_in-Resolved lib h sites default_server))
    ]

-- The result is the name of an enabled site whose short name is that of the host's controller and
-- one of whose subnets holds one of the host's addresses, with the servers of that site in order; if
-- there is no such site, it is no name and the default server alone.
pub resolve_site-Resolved :
    (lib : Lib) (doc : Document) (h : Host)
    → Resolved lib h doc.dc_lookup_map doc.default_server (resolve_site lib doc h)
unfolding resolve_site
resolve_site-Resolved lib doc h = resolve_in-Resolved lib h doc.dc_lookup_map doc.default_server
