-- ===== src/UpdaterClient.antt =====
-- internal/updaterclient: who a request comes from, as both wire formats say it.
pub mod Versions
pub mod Identities
pub mod Registry
pub mod Collisions
pub mod Upserts
pub mod Events
pub mod Record
pub mod Examples
use Prim.Native.Char.{code}
use emly_go_api.Base.{
  ℕ, zero, suc, Bool, true, false, not, ◌&&◌, ◌||◌, leb, Option, none, some, String, ◌==◌,
  string_eq, if◌then◌else◌, nat_beq, is_some,
}
use emly_go_api.Base.Int.{ℤ}
use emly_go_api.Base.Text.{trim_space, split_host_port, strip, after_byte, before_byte}

-- What the package calls of Go's standard library: the RFC3339 parser in seconds since the zero time,
-- `strings.ToLower` and `strconv.Atoi`.
pub record Lib : Type 0 where
  pub parse_time : String → Option ℕ
  pub to_lower : String → String
  pub atoi : String → Option ℤ

-- What the identity is read from: the headers by name, the User-Agent and the connection.
pub record Request : Type 0 where
  pub header : String → String
  pub user_agent : String
  pub remote_addr : String

pub record Identity : Type 0 where
  pub hwid : String
  pub hostname : String
  pub ad_domain : String
  pub logged_user : String
  pub logged_user_state : String
  pub logged_user_disconnected_at : ℕ
  pub nobody_logged_on : Bool
  pub serial : String
  pub product : String
  pub os_version : String
  pub emly_version : String
  pub ua_version : String
  pub contact : String
  pub ip : String

abbrev pub identified : Identity → Bool
identified id = not (id.hwid == "") || not (id.hostname == "")

-- `\w`, a dot or a dash
abbrev pub is_agent_byte : ℕ → Bool
is_agent_byte c =
    leb b'0' c && leb c b'9'
    || leb b'A' c && leb c b'Z'
    || leb b'a' c && leb c b'z'
    || nat_beq c b'_'
    || nat_beq c b'.'
    || nat_beq c b'-'

-- `\s`
abbrev pub is_blank_byte : ℕ → Bool
is_blank_byte c = nat_beq c 9 || nat_beq c 10 || nat_beq c 12 || nat_beq c 13 || nat_beq c 32

-- The longest prefix of the class, and the rest.
unfoldable pub span : (ℕ → Bool) → String → String × String
span p String.[] = ("", "")
span p (String.◌∷◌ c s) =
    let rest = span p s in
    if p (code c) then (String.◌∷◌ c rest.0, rest.1) else ("", String.◌∷◌ c s)

-- `\(([^)]*)\)` at the head of the text
unfoldable pub bracketed : String → Option String
unfolding after_byte before_byte
bracketed String.[] = none
bracketed (String.◌∷◌ c s) =
    if nat_beq (code c) b'(' && is_some (after_byte b')' s) then some (before_byte b')' s) else none

-- ParseUserAgent. The classes of the pattern do not meet, so that its longest match is the only one.
unfoldable pub parse_user_agent : String → String × String
unfolding strip span bracketed
parse_user_agent ua = elim (strip "EMLy-Updater/" ua) [
  | none ↦ ("", "")
  | some rest ↦
      let (version, tail) = span is_agent_byte rest in
      elim (bracketed (span is_blank_byte tail).1) [
        | none ↦ ("", "")
        | some contact ↦ if version == "" then ("", "") else (version, trim_space contact)
      ]
]

unfoldable pub client_ip : Request → String
unfolding split_host_port
client_ip r = elim (split_host_port r.remote_addr) [ some host ↦ host | none ↦ r.remote_addr ]

abbrev pub logged_user_active_console : String
logged_user_active_console = "active-console"

abbrev pub logged_user_active_rdp : String
logged_user_active_rdp = "active-rdp"

abbrev pub logged_user_disconnected : String
logged_user_disconnected = "disconnected"

-- parseLoggedUserSession
unfoldable pub parse_logged_user_session : Lib → String → String → String × ℕ
parse_logged_user_session lib raw disconnected_at =
    let state = lib.to_lower (trim_space raw) in
    if state == logged_user_active_console || state == logged_user_active_rdp
    then (state, 0)
    else if state == logged_user_disconnected
    then (state, elim (lib.parse_time (trim_space disconnected_at)) [ none ↦ 0 | some t ↦ t ])
    else ("", 0)
