-- ===== src/RemoteConfig/Validate/Sections.antt =====
-- internal/remoteconfig/parse.go: the validators of one section.
use Prim.Native.Char.{code}
use emly_go_api.Base.{
  ℕ, Bool, true, false, ◌||◌, ◌&&◌, not, Option, none, some, List, [], ◌∷◌, ◌++◌, String, ◌==◌,
  string_eq, if◌then◌else◌, leb, nat_beq, is_some,
}
use emly_go_api.Base.Int.{ℤ, pos, ltb_ℤ, negsuc}
use emly_go_api.Base.Net.{NetParser, is_v4}
use emly_go_api.RemoteConfig.Document.{
  Problem, problemf, Control, UpdaterTuning, CriticalWarning, DcLookupRetry, ResolverTuning,
  Logging,
}

-- What url.Parse reads: the scheme, the host and the query.
pub record Url : Type 0 where
  pub scheme : String
  pub host : String
  pub raw_query : String

-- What the package calls of Go's standard library and does not contain: `time.Parse` with
-- time.RFC3339 (the moment, or an error), `url.Parse`, the two parsers of `net`,
-- `strings.EqualFold`, and `strconv.Atoi` and `strconv.Itoa`.
pub record Lib : Type 0 where
  pub parse_time : String → Option ℕ
  pub parse_url : String → Option Url
  pub net : NetParser
  pub equal_fold : String → String → Bool
  pub is_integer : String → Bool
  pub itoa : ℤ → String

-- `if cond { problems = append(problems, …) }`
abbrev pub when : Bool → String → String → List Problem
when failed path message = if failed then problemf path message ∷ [] else []

abbrev is_digit : ℕ → Bool
is_digit c = leb b'0' c && leb c b'9'

abbrev is_version_byte : ℕ → Bool
is_version_byte c =
    is_digit c
    || leb b'A' c && leb c b'Z'
    || leb b'a' c && leb c b'z'
    || nat_beq c b'.'
    || nat_beq c b'-'

all_version_bytes : String → Bool
all_version_bytes String.[] = true
all_version_bytes (String.◌∷◌ c s) = is_version_byte (code c) && all_version_bytes s

-- semverPattern.MatchString. The group {0,3} of the pattern may be empty and its bytes are in the
-- class that follows it, so the pattern asks for a digit and then for bytes of the class.
unfoldable pub matches_semver : String → Bool
unfolding all_version_bytes
matches_semver String.[] = false
matches_semver (String.◌∷◌ c s) = is_digit (code c) && all_version_bytes s

-- validAppModes, validChannelOverride and validLoggingLevels
abbrev pub valid_app_modes : String → Bool
valid_app_modes s = s == "normal" || s == "readonly" || s == "maintenance"

abbrev pub valid_channel_override : String → Bool
valid_channel_override s = s == "stable" || s == "beta"

abbrev pub valid_logging_levels : String → Bool
valid_logging_levels s = s == "debug" || s == "info" || s == "warn" || s == "error"

-- strings.HasSuffix(raw, "/")
unfoldable pub ends_in_slash : String → Bool
ends_in_slash String.[] = false
ends_in_slash (String.◌∷◌ c String.[]) = nat_beq (code c) b'/'
ends_in_slash (String.◌∷◌ c (String.◌∷◌ d s)) = ends_in_slash (String.◌∷◌ d s)

unfoldable pub validate_semver_ptr : String → Option String → List Problem
unfolding matches_semver
validate_semver_ptr path none = []
validate_semver_ptr path (some v) =
    when (not (v == "") && not (matches_semver v)) path "must be a semver string"

module _ (lib : Lib) where
  -- validateServerURL: `none` is the nil error.
  unfoldable pub validate_server_url : String → Option String
  unfolding ends_in_slash
  validate_server_url raw = elim (lib.parse_url raw) [
    | none ↦ some "invalid URL"
    | some u ↦
        if not (u.scheme == "http") && not (u.scheme == "https")
        then some "scheme must be http or https"
        else if u.host == ""
        then some "must be an absolute URL"
        else if not (u.raw_query == "")
        then some "must not carry a query string"
        else if ends_in_slash raw
        then some "must not have a trailing slash"
        else none
  ]

  -- validateCIDR: IPv4 only; `none` is the nil error.
  unfoldable pub validate_cidr : String → Option String
  validate_cidr cidr = elim (lib.net.parse_cidr cidr) [
    | none ↦ some "invalid CIDR address"
    | some n ↦ if is_v4 n.address then none else some "IPv6 CIDRs are not supported"
  ]

  unfoldable pub validate_gate_until : String → Option String → List Problem
  validate_gate_until path none = []
  validate_gate_until path (some until) =
      when (not (until == "") && not (is_some (lib.parse_time until))) path "must be RFC3339"

  unfoldable pub validate_control : Option Control → List Problem
  unfolding validate_gate_until
  validate_control none = []
  validate_control (some c) =
      validate_gate_until "/control/updater/until" c.updater.until
      ++ (validate_gate_until "/control/app/until" c.app.until
          ++ when (not (c.app.mode == "") && not (valid_app_modes c.app.mode)) "/control/app/mode"
              "must be one of: normal, readonly, maintenance")

-- `p != nil && *p < bound`
abbrev pub below : Option ℤ → ℤ → Bool
below none bound = false
below (some n) bound = ltb_ℤ n bound

abbrev unknown_channel : Option String → Bool
unknown_channel none = false
unknown_channel (some s) = not (s == "") && not (valid_channel_override s)

abbrev pub validate_warning : Option CriticalWarning → List Problem
validate_warning none = []
validate_warning (some w) =
    when (ltb_ℤ w.seconds (pos 0)) "/updater/criticalWarning/seconds" "must be >= 0"

abbrev pub validate_retry : Option DcLookupRetry → List Problem
validate_retry none = []
validate_retry (some r) =
    when (ltb_ℤ r.attempts (pos 0)) "/updater/dcLookupRetry/attempts" "must be >= 0"
    ++ when (ltb_ℤ r.delay_seconds (pos 0)) "/updater/dcLookupRetry/delaySeconds" "must be >= 0"

abbrev pub validate_resolver : Option ResolverTuning → List Problem
validate_resolver none = []
validate_resolver (some r) =
    when (ltb_ℤ r.attempts (pos 1)) "/updater/resolver/attempts" "must be >= 1"
    ++ when (ltb_ℤ r.base_backoff_seconds (pos 0)) "/updater/resolver/baseBackoffSeconds"
        "must be >= 0"

unfoldable pub validate_updater : Option UpdaterTuning → List Problem
validate_updater none = []
validate_updater (some u) =
    when (below u.poll_interval_minutes (pos 1)) "/updater/pollIntervalMinutes" "must be >= 1"
    ++ (when (unknown_channel u.channel_override) "/updater/channelOverride"
          "must be one of: stable, beta, or null"
        ++ (validate_warning u.critical_warning
            ++ (validate_retry u.dc_lookup_retry ++ validate_resolver u.resolver)))

abbrev is_zero : ℤ → Bool
is_zero (pos n) = nat_beq n 0
is_zero (negsuc n) = false

unfoldable pub validate_logging : Option Logging → List Problem
validate_logging none = []
validate_logging (some l) =
    when (not (l.level == "") && not (valid_logging_levels l.level)) "/logging/level"
      "must be one of: debug, info, warn, error"
    ++ (when
          (not (is_zero l.max_size_mb)
            && (ltb_ℤ l.max_size_mb (pos 1) || ltb_ℤ (pos 100) l.max_size_mb))
          "/logging/maxSizeMB" "must be in [1, 100]"
        ++ when (ltb_ℤ l.backups (pos 0) || ltb_ℤ (pos 50) l.backups) "/logging/backups"
            "must be in [0, 50]")
