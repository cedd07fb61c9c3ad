-- ===== src/RemoteConfig/Document.antt =====
-- internal/remoteconfig/types.go and problem.go. A pointer is an Option, a slice a List (nil and
-- empty alike), and a map a list of pairs, each key once.
use emly_go_api.Base.{
  Bool, ◌||◌, Option, none, some, List, [], ◌∷◌, String, ◌==◌, string_eq, if◌then◌else◌,
}
use emly_go_api.Base.Int.{ℤ}
use emly_go_api.RemoteConfig.Json.{Fields}

-- problem.go. The message is the format text, with its arguments left out.
pub record Problem : Type 0 where
  pub path : String
  pub message : String

abbrev pub problemf : String → String → Problem
problemf path message = record { path = path; message = message }

pub record Refresh : Type 0 where
  pub interval_minutes : ℤ
  pub stale_after_days : Option ℤ

pub record VersionRange : Type 0 where
  pub min : Option String
  pub max : Option String

pub record IpcVersion : Type 0 where
  pub updater : VersionRange
  pub emly : VersionRange
  pub enabled : Bool

pub record IpcProtocol : Type 0 where
  pub versions : List (String × IpcVersion)
  pub default_version : ℤ

pub record Site : Type 0 where
  pub internal_subnets : List String
  pub base_server : String
  pub backup_server : List String
  pub enabled : Bool

pub record Whitelist : Type 0 where
  pub hostnames : List String
  pub hwids : List String

pub record HostIntegrity : Type 0 where
  pub enabled : Bool
  pub whitelist : Whitelist

pub record ControlGate : Type 0 where
  pub enabled : Bool
  pub reason : Option String
  pub until : Option String

pub record AppGate : Type 0 where
  pub enabled : Bool
  pub mode : String
  pub reason : Option String
  pub until : Option String

pub record Control : Type 0 where
  pub updater : ControlGate
  pub app : AppGate

pub record CriticalWarning : Type 0 where
  pub enabled : Bool
  pub seconds : ℤ

pub record DcLookupRetry : Type 0 where
  pub attempts : ℤ
  pub delay_seconds : ℤ

pub record ResolverTuning : Type 0 where
  pub attempts : ℤ
  pub base_backoff_seconds : ℤ

pub record ToggleOnly : Type 0 where
  pub enabled : Bool

pub record UpdaterTuning : Type 0 where
  pub poll_interval_minutes : Option ℤ
  pub channel_override : Option String
  pub critical_warning : Option CriticalWarning
  pub dc_lookup_retry : Option DcLookupRetry
  pub resolver : Option ResolverTuning
  pub self_update : Option ToggleOnly
  pub install_certificate : Option ToggleOnly

pub record Logging : Type 0 where
  pub level : String
  pub max_size_mb : ℤ
  pub backups : ℤ
  pub compress : Bool
  pub event_log : Bool

pub record Selector : Type 0 where
  pub all : Option Bool
  pub hwids : List String
  pub hostnames : List String
  pub dcs : List String
  pub subnets : List String
  pub domains : List String

-- PatchDoc
abbrev pub PatchDoc : Type 0
PatchDoc = Fields

pub record Override : Type 0 where
  pub id : String
  pub match : Selector
  pub except : Option Selector
  pub until : Option String
  pub patch : PatchDoc

pub record Document : Type 0 where
  pub schema_version : ℤ
  pub revision : ℤ
  pub generated_at : String
  pub refresh : Option Refresh
  pub servers : List (String × String)
  pub default_server : String
  pub ipc_protocol : Option IpcProtocol
  pub dc_lookup_map : List (String × Site)
  pub host_integrity : Option HostIntegrity
  pub control : Option Control
  pub updater : Option UpdaterTuning
  pub logging : Option Logging
  pub client_ws : Option ToggleOnly
  pub overrides : List Override

-- AllowedPatchKeys
abbrev pub allowed_patch_keys : String → Bool
allowed_patch_keys key =
    key == "control"
    || key == "updater"
    || key == "logging"
    || key == "defaultServer"
    || key == "clientWs"

-- `v, ok := m[key]`
abbrev pub find {ℓ} : {V : Type ℓ} → String → List (String × V) → Option V
find key [] = none
find key ((k, v) ∷ m) = if k == key then some v else find key m
