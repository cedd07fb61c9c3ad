-- ===== src/Middleware/RateLimit.antt =====
-- internal/middleware/ratelimit.ban.go: the two-tier rate limiter with temporary bans.
-- The maps are functions of the address. A moment is a number of nanoseconds on the process's
-- monotonic clock, and each call of `time.Now` is an argument of its own. In Go a request looks up
-- the ban, records itself under the limiter's lock and stores a new ban in three separate steps; here
-- a request is one step, so that requests run one after another.
pub mod Window
pub mod Order
pub mod Sweeping
pub mod Cleanup
pub mod Handling
pub mod Bans
mod Examples
use emly_go_api.Base.{
  ℕ, suc, ◌+◌, ◌-◌, ◌*◌, ◌^◌, Bool, true, false, ◌&&◌, ◌||◌, not, Option, none, some, List, [], ◌∷◌,
  String, Map, empty, update, remove, ltb, leb, ◌==◌, string_eq, if◌then◌else◌,
}
use emly_go_api.Base.Net.{Ip, v4, v6, Network, contains, NetParser}
use emly_go_api.Middleware.Request.{Request}
use emly_go_api.Middleware.ClientAddress.{get_ip}

-- privateRanges, parsed
abbrev pub private_ranges : List Network
private_ranges =
    record { address = v4 0x7f000000; ones = 8 }
    ∷ record { address = v4 0x0a000000; ones = 8 }
    ∷ record { address = v4 0xac100000; ones = 12 }
    ∷ record { address = v4 0xc0a80000; ones = 16 }
    ∷ record { address = v6 1; ones = 128 }
    ∷ record { address = v6 (0xfc * 2 ^ 120); ones = 7 }
    ∷ []

abbrev any_contains : List Network → Ip → Bool
any_contains [] ip = false
any_contains (r ∷ rs) ip = contains r ip || any_contains rs ip

unfoldable pub is_private_ip : NetParser → String → Bool
is_private_ip net s = elim (net.parse_ip s) [
  | none ↦ false
  | some ip ↦ any_contains private_ranges ip
]

pub record LimitConfig : Type 0 where
  pub max_reqs : ℕ
  pub window : ℕ
  pub max_fails : ℕ
  pub ban_dur : ℕ

pub record IpState : Type 0 where
  pub count : ℕ
  pub window_start : ℕ
  pub failures : ℕ
  pub last_seen : ℕ

pub record RateLimiter : Type 0 where
  pub unauth_visitors : Map String IpState
  pub auth_visitors : Map String IpState
  pub banned : Map String ℕ
  pub unauth_cfg : LimitConfig
  pub auth_cfg : LimitConfig
  pub dashboard_key : String

-- NewRateLimiter
abbrev pub new : LimitConfig → LimitConfig → String → RateLimiter
new unauth auth key = record {
  unauth_visitors = empty;
  auth_visitors = empty;
  banned = empty;
  unauth_cfg = unauth;
  auth_cfg = auth;
  dashboard_key = key;
}

-- The four results of `record`.
pub record Verdict : Type 0 where
  pub exceeded : Bool
  pub failures : ℕ
  pub should_ban : Bool
  pub ban_dur : ℕ

-- `v = &ipState{windowStart: time.Now()}`
abbrev pub fresh : ℕ → IpState
fresh opened = record { count = 0; window_start = opened; failures = 0; last_seen = 0 }

-- `record` from `now := time.Now()` on: the visitor's new state and the verdict.
unfoldable pub count_request : LimitConfig → IpState → ℕ → IpState × Verdict
count_request cfg v now =
    let reset = leb cfg.window (now - v.window_start) in
    let count = (if reset then 0 else v.count) + 1 in
    let start = if reset then now else v.window_start in
    if ltb cfg.max_reqs count
    then (
      record { count = count; window_start = start; failures = v.failures + 1; last_seen = now },
      record {
        exceeded = true;
        failures = v.failures + 1;
        should_ban = leb cfg.max_fails (v.failures + 1);
        ban_dur = cfg.ban_dur;
      },
    )
    else (
      record { count = count; window_start = start; failures = 0; last_seen = now },
      record { exceeded = false; failures = 0; should_ban = false; ban_dur = 0 },
    )

abbrev pub visitors : Bool → RateLimiter → Map String IpState
visitors true rl = rl.auth_visitors
visitors false rl = rl.unauth_visitors

abbrev pub config : Bool → RateLimiter → LimitConfig
config true rl = rl.auth_cfg
config false rl = rl.unauth_cfg

abbrev pub with_visitors : Bool → Map String IpState → RateLimiter → RateLimiter
with_visitors true m rl = record rl { auth_visitors = m }
with_visitors false m rl = record rl { unauth_visitors = m }

abbrev pub visitor_or_fresh : ℕ → Option IpState → IpState
visitor_or_fresh opened none = fresh opened
visitor_or_fresh opened (some v) = v

-- `record`. `opened` is the moment given to a new visitor, `now` the one taken after it.
unfoldable pub record_request : RateLimiter → String → Bool → ℕ → ℕ → RateLimiter × Verdict
unfolding count_request
record_request rl ip auth opened now =
    let v = visitor_or_fresh opened (visitors auth rl ip) in
    let (v', verdict) = count_request (config auth rl) v now in
    (with_visitors auth (update ip v' (visitors auth rl)) rl, verdict)

abbrev pub is_authenticated : Request → Bool
is_authenticated r = not (r.x_api_key == "") || not (r.x_admin_key == "")

-- What the middleware does with a request: passes it on, drops the connection, answers 403 with
-- the moment of the end of the ban in Retry-After, or answers 429.
pub data Outcome : Type 0 where
  served aborted too_many_requests : Outcome
  banned_until : ℕ → Outcome

-- The readings of the clock in one request, in the order in which they are taken.
pub record Times : Type 0 where
  pub checked : ℕ
  pub opened : ℕ
  pub recorded : ℕ
  pub banned_at : ℕ

-- Handler from `auth := rl.isAuthenticated(r)` on.
unfoldable pub admit : RateLimiter → String → Bool → Times → RateLimiter × Outcome
unfolding record_request
admit rl ip auth t =
    let (rl', v) = record_request rl ip auth t.opened t.recorded in
    if v.exceeded
    then (if v.should_ban
        then (
          record rl' { banned = update ip (t.banned_at + v.ban_dur) rl'.banned },
          banned_until (t.banned_at + v.ban_dur),
        )
        else (rl', too_many_requests))
    else (rl', served)

-- Handler from `rl.banned.Load(ip)` on. The connection is dropped by panic(http.ErrAbortHandler).
unfoldable pub check_ban : RateLimiter → String → Bool → Times → RateLimiter × Outcome
unfolding admit
check_ban rl ip auth t = elim (rl.banned ip) [
  | none ↦ admit rl ip auth t
  | some unban_at ↦
      if ltb t.checked unban_at
      then (rl, aborted)
      else admit (record rl { banned = remove ip rl.banned }) ip auth t
]

-- Handler, with no other request between its look-up of the ban, `record` and the new ban.
unfoldable pub handler : NetParser → RateLimiter → Request → Times → RateLimiter × Outcome
unfolding check_ban is_private_ip
handler net rl r t =
    if not (rl.dashboard_key == "") && r.x_dashboard_key == rl.dashboard_key
    then (rl, served)
    else if is_private_ip net (get_ip r)
    then (rl, served)
    else check_ban rl (get_ip r) (is_authenticated r) t

-- `time.Since(v.lastSeen) > window*2` keeps no visitor.
abbrev pub sweep : ℕ → ℕ → Map String IpState → Map String IpState
sweep window now m ip = elim (m ip) [
  | none ↦ none
  | some v ↦ if ltb (window * 2) (now - v.last_seen) then none else some v
]

abbrev pub sweep_bans : ℕ → Map String ℕ → Map String ℕ
sweep_bans now m ip = elim (m ip) [
  | none ↦ none
  | some unban_at ↦ if ltb unban_at now then none else some unban_at
]

-- One round of cleanupLoop at one moment.
unfoldable pub cleanup : ℕ → RateLimiter → RateLimiter
cleanup now rl = record rl {
  unauth_visitors = sweep rl.unauth_cfg.window now rl.unauth_visitors;
  auth_visitors = sweep rl.auth_cfg.window now rl.auth_visitors;
  banned = sweep_bans now rl.banned;
}
