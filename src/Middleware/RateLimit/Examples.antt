-- ===== src/Middleware/RateLimit/Examples.antt =====
-- One limiter that allows two requests a window and bans at the second excess.
use emly_go_api.Base.{
  update, ◌-◌, ℕ, ◌≤◌, true, none, some, List, [], ◌∷◌, ◌≡◌, ◌≢◌, refl, ◌⊎◌, inl, inr, arith, ◌==◌,
  string_eq, if◌then◌else◌,
}
use Prim.Native.Nat.{min}
use emly_go_api.Base.Text.{split_host_port, contains_byte, before_byte, trim_space}
use emly_go_api.Base.Net.{v4, NetParser}
use emly_go_api.Middleware.Request.{Request}
use emly_go_api.Middleware.ClientAddress.{get_ip, client_ip}
use emly_go_api.Middleware.ClientAddress.Agreement.{get_ip-ne-client_ip}
use emly_go_api.Middleware.RateLimit.{
  LimitConfig, RateLimiter, new, Times, served, aborted, banned_until, record_request, handler,
  cleanup,
}
use emly_go_api.Middleware.RateLimit.Window.{admitted, admitted-eq-min}
use emly_go_api.Middleware.RateLimit.Handling.{IsExempt, handler_served}
use emly_go_api.Middleware.RateLimit.Bans
use emly_go_api.Middleware.RateLimit.Bans.{Event, clean_up, run, handler_banned}
use emly_go_api.Middleware.RateLimit.Order.{IsOrdered, new-IsOrdered, handler-IsOrdered}
use emly_go_api.Middleware.RateLimit.Cleanup.{answers, answers-cleanup}

-- Reads two addresses.
abbrev parser : NetParser
parser = record {
  parse_ip = λ s.
      if s == "10.0.0.1"
      then some (v4 0x0a000001)
      else (if s == "198.51.100.4" then some (v4 0xc6336404) else none);
  parse_cidr = λ s. none;
}

abbrev limits : LimitConfig
limits = record { max_reqs = 2; window = 100; max_fails = 1; ban_dur = 50 }

abbrev limiter : RateLimiter
limiter = new limits limits "dash"

abbrev request : Request
request = record {
  remote_addr = "198.51.100.4:5000";
  x_real_ip = "";
  x_forwarded_for = "";
  x_api_key = "";
  x_admin_key = "";
  x_dashboard_key = "";
  x_emly_hwid = "";
  x_emly_hostname = "";
}

abbrev at : ℕ → Times
at n = record { checked = n; opened = n; recorded = n; banned_at = n }

-- After two requests.
abbrev busy : RateLimiter
busy = (handler parser (handler parser limiter request (at 1)).0 request (at 2)).0

third_is_banned : (handler parser busy request (at 3)).1 ≡ banned_until 53
unfolding handler get_ip split_host_port
third_is_banned = refl

office_is_exempt :
    (handler parser busy (record request { remote_addr = "10.0.0.1:1" }) (at 3)).1 ≡ served
unfolding handler get_ip split_host_port
office_is_exempt = refl

-- After the ban: another visitor, a round of the clean-up, and the banned address again.
abbrev meanwhile : List Event
meanwhile =
    Bans.request (record request { remote_addr = "198.51.100.5:5000" }) (at 20)
    ∷ clean_up 30
    ∷ Bans.request request (at 40)
    ∷ []

handler_banned_example :
    handler parser (run parser meanwhile (handler parser busy request (at 3)).0) request (at 52)
    ≡ (run parser meanwhile (handler parser busy request (at 3)).0, aborted)
unfolding handler get_ip split_host_port
handler_banned_example =
    handler_banned parser busy request request (at 3) (at 52) 53 meanwhile refl
      ((λ e. omega arith), (omega arith, ((λ e. omega arith), tt))) refl
      (λ e. elim e [ inl h ↦ cc | inr h ↦ cc ]) (omega arith)

abbrev once_banned : RateLimiter
once_banned = record limiter { banned = update "198.51.100.4" 53 limiter.banned }

handler_served_example : IsExempt parser once_banned request ⊎ (53 ≤ 60)
unfolding handler get_ip split_host_port
handler_served_example = handler_served parser once_banned request (at 60) 53 refl refl

-- One visitor, seen at 1, whom a round at 300 forgets.
abbrev stale : RateLimiter
stale = (handler parser limiter request (at 1)).0

stale-IsOrdered : IsOrdered 300 stale
stale-IsOrdered auth ip v e = omega (
  arith,
  handler-IsOrdered parser limiter request 0 (at 1) (new-IsOrdered limits limits "dash" 0)
      (omega arith) auth ip v e,
)

answers-cleanup_example :
    answers parser
      ((request, at 302) ∷ (request, at 303) ∷ (request, at 304) ∷ [])
      (cleanup 300 stale)
    ≡ answers parser ((request, at 302) ∷ (request, at 303) ∷ (request, at 304) ∷ []) stale
unfolding handler get_ip split_host_port
answers-cleanup_example =
    answers-cleanup parser stale 300
      ((request, at 302) ∷ (request, at 303) ∷ (request, at 304) ∷ []) (omega arith) (omega arith)
      stale-IsOrdered ((omega arith, refl), ((omega arith, refl), ((omega arith, refl), tt)))

stale_forgotten :
    (stale.unauth_visitors "198.51.100.4"
      ≡ some (record { count = 1; window_start = 1; failures = 0; last_seen = 1 }))
    × ((cleanup 300 stale).unauth_visitors "198.51.100.4" ≡ none)
unfolding handler get_ip split_host_port cleanup
stale_forgotten = (refl, refl)

-- With two readings, a new visitor's window starts at the first and a visitor's new window at the
-- second, so that one that was forgotten can be allowed a request a little sooner.
abbrev strict : RateLimiter
strict = record stale { unauth_cfg = record limits { max_reqs = 1 } }

abbrev slow : List (Request × Times)
slow =
    (request, record { checked = 301; opened = 301; recorded = 305; banned_at = 305 })
    ∷ (request, at 402)
    ∷ []

sooner :
    (answers parser slow (cleanup 300 strict) ≡ served ∷ served ∷ [])
    × (answers parser slow strict ≡ served ∷ banned_until 452 ∷ [])
unfolding handler get_ip split_host_port cleanup
sooner = (refl, refl)

abbrev seen_once : RateLimiter
seen_once = (record_request limiter "198.51.100.4" true 7 7).0

admitted-eq-min_example : admitted seen_once "198.51.100.4" true (8 ∷ 9 ∷ 10 ∷ []) ≡ min 3 (2 - 1)
unfolding record_request
admitted-eq-min_example =
    admitted-eq-min seen_once "198.51.100.4" true
      (record { count = 1; window_start = 7; failures = 0; last_seen = 7 }) (8 ∷ 9 ∷ 10 ∷ []) refl
      (omega arith)

abbrev proxied : Request
proxied = record request { x_forwarded_for = "198.51.100.4, 10.0.0.1" }

get_ip-ne-client_ip_example :
    (get_ip proxied ≡ "198.51.100.4, 10.0.0.1")
    × (client_ip proxied ≡ trim_space (before_byte b',' "198.51.100.4, 10.0.0.1"))
    × (get_ip proxied ≢ client_ip proxied)
unfolding contains_byte
get_ip-ne-client_ip_example = get_ip-ne-client_ip proxied refl refl refl
