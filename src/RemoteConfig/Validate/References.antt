-- ===== src/RemoteConfig/Validate/References.antt =====
-- internal/remoteconfig/parse.go: the validators that follow the references of a document.
use Prim.Native.String.{◌++◌ as str_append}
use emly_go_api.Base.{
  Bool, true, false, ◌&&◌, not, Option, none, some, List, [], ◌∷◌, ◌++◌, String, ◌==◌, string_eq,
  if◌then◌else◌, is_some, ℕ, suc,
}
use emly_go_api.Base.Int.{ℤ, pos, ltb_ℤ}
use emly_go_api.RemoteConfig.Document.{
  Problem, problemf, IpcVersion, IpcProtocol, Site, Document, find,
}
use emly_go_api.RemoteConfig.Validate.Sections.{
  Lib, when, validate_server_url, validate_semver_ptr, validate_cidr,
}

infixr 65 ◌+s◌
abbrev pub ◌+s◌ : String → String → String
s +s t = str_append s t

abbrev pub err_problem : String → Option String → List Problem
err_problem path none = []
err_problem path (some message) = problemf path message ∷ []

abbrev pub is_empty {ℓ} : {A : Type ℓ} → List A → Bool
is_empty [] = true
is_empty (x ∷ xs) = false

abbrev pub is_one : ℤ → Bool
is_one n = not (ltb_ℤ n (pos 1)) && not (ltb_ℤ (pos 1) n)

-- `_, ok := doc.Servers[name]`
abbrev pub has_server : List (String × String) → String → Bool
has_server servers name = is_some (find name servers)

module _ (lib : Lib) where
  unfoldable pub validate_top : Document → List Problem
  validate_top doc =
      when (not (is_one doc.schema_version)) "/schemaVersion" "must equal 1"
      ++ (when (ltb_ℤ doc.revision (pos 0)) "/revision" "must be >= 0"
          ++ when (not (doc.generated_at == "") && not (is_some (lib.parse_time doc.generated_at)))
              "/generatedAt" "must be RFC3339")

  -- The loop of validateServers.
  unfoldable pub validate_urls : List (String × String) → List Problem
  validate_urls [] = []
  validate_urls ((name, base) ∷ rest) =
      err_problem ("/servers/" +s name) (validate_server_url lib base) ++ validate_urls rest

  unfoldable pub validate_servers : Document → List Problem
  unfolding validate_urls
  validate_servers doc =
      when (is_empty doc.servers) "/servers" "must have at least one entry"
      ++ (validate_urls doc.servers
          ++ (if doc.default_server == ""
              then problemf "/defaultServer" "is required" ∷ []
              else when (not (has_server doc.servers doc.default_server)) "/defaultServer"
                  "references unknown server"))

  -- The loop of validateIPCProtocol.
  unfoldable pub validate_versions : List (String × IpcVersion) → List Problem
  validate_versions [] = []
  validate_versions ((key, v) ∷ rest) =
      let path = "/ipcProtocol/versions/" +s key in
      when (not (lib.is_integer key)) path "key must be a decimal integer"
      ++ (validate_semver_ptr (path +s "/updater/min") v.updater.min
          ++ (validate_semver_ptr (path +s "/updater/max") v.updater.max
              ++ (validate_semver_ptr (path +s "/emly/min") v.emly.min
                  ++ (validate_semver_ptr (path +s "/emly/max") v.emly.max
                      ++ validate_versions rest))))

  abbrev pub validate_default : Option IpcVersion → List Problem
  validate_default none =
      problemf "/ipcProtocol/defaultVersion" "references unknown protocol version" ∷ []
  validate_default (some v) =
      when (not v.enabled) "/ipcProtocol/defaultVersion" "protocol version is disabled"

  unfoldable pub validate_ipc_protocol : Option IpcProtocol → List Problem
  unfolding validate_versions
  validate_ipc_protocol none = []
  validate_ipc_protocol (some ipc) =
      validate_versions ipc.versions
      ++ validate_default (find (lib.itoa ipc.default_version) ipc.versions)

  unfoldable pub validate_subnets : String → List String → List Problem
  validate_subnets path [] = []
  validate_subnets path (cidr ∷ rest) =
      err_problem path (validate_cidr lib cidr) ++ validate_subnets path rest

  -- The loop over backupServer, from the index i.
  unfoldable pub validate_backups : List (String × String) → String → ℕ → List String → List Problem
  validate_backups servers path i [] = []
  validate_backups servers path i (ref ∷ rest) =
      when (not (has_server servers ref)) (path +s "/backupServer/" +s lib.itoa (pos i))
        "references unknown server"
      ++ validate_backups servers path (suc i) rest

  -- One round of the loop of validateDCLookupMap.
  unfoldable pub validate_site : List (String × String) → String → Site → List Problem
  unfolding validate_subnets validate_backups
  validate_site servers dc site =
      let path = "/dcLookupMap/" +s dc in
      when (is_empty site.internal_subnets) (path +s "/internalSubnets")
        "must have at least one entry"
      ++ (validate_subnets (path +s "/internalSubnets") site.internal_subnets
          ++ ((if site.base_server == ""
                then problemf (path +s "/baseServer") "is required" ∷ []
                else when (not (has_server servers site.base_server)) (path +s "/baseServer")
                    "references unknown server")
              ++ validate_backups servers path 0 site.backup_server))

  unfoldable pub validate_sites : List (String × String) → List (String × Site) → List Problem
  unfolding validate_site
  validate_sites servers [] = []
  validate_sites servers ((dc, site) ∷ rest) =
      validate_site servers dc site ++ validate_sites servers rest

  unfoldable pub validate_dc_lookup_map : Document → List Problem
  unfolding validate_sites
  validate_dc_lookup_map doc = validate_sites doc.servers doc.dc_lookup_map
