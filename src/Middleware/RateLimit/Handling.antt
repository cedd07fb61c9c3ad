-- ===== src/Middleware/RateLimit/Handling.antt =====
-- What the handler answers with a ban in force, and that it leaves other addresses alone.
use emly_go_api.Base.{
  ℕ, ◌≤◌, ◌<◌, Bool, true, false, not, ◌&&◌, some, String, ◌≡◌, ◌≢◌, arith, ◌⊎◌, ==-refl, ==-ne,
  ◌==◌, string_eq, remove,
}
use emly_go_api.Base.Net.{NetParser}
use emly_go_api.Middleware.Request.{Request}
use emly_go_api.Middleware.ClientAddress.{get_ip}
use emly_go_api.Middleware.RateLimit.{
  RateLimiter, Times, served, aborted, banned_until, visitors, is_private_ip, admit, check_ban,
  handler, is_authenticated,
}

-- A request that the limiter does not look at.
abbrev pub IsExempt : NetParser → RateLimiter → Request → Type 0
IsExempt net rl r =
    ((not (rl.dashboard_key == "") && r.x_dashboard_key == rl.dashboard_key) ≡ true)
    ⊎ (is_private_ip net (get_ip r) ≡ true)

-- A request passes only if it is exempt, or no ban of its address is in force.
pub handler_served :
    (net : NetParser) (rl : RateLimiter) (r : Request) (t : Times) (unban_at : ℕ)
    → (handler net rl r t).1 ≡ served
    → rl.banned (get_ip r) ≡ some unban_at
    → IsExempt net rl r ⊎ (unban_at ≤ t.checked)
unfolding handler check_ban
handler_served net rl r t u e b = ground arith

admit_banned :
    (rl : RateLimiter) (ip : String) (auth : Bool) (t : Times) (u : ℕ)
    → (admit rl ip auth t).1 ≡ banned_until u
    → (admit rl ip auth t).0.banned ip ≡ some u
unfolding admit
admit_banned rl ip auth t u e = ground (arith, ==-refl ip)

pub handler_bans :
    (net : NetParser) (rl : RateLimiter) (r : Request) (t : Times) (u : ℕ)
    → (handler net rl r t).1 ≡ banned_until u
    → (handler net rl r t).0.banned (get_ip r) ≡ some u
unfolding handler check_ban
handler_bans net rl r t u e = ground (
  arith,
  admit_banned rl (get_ip r) (is_authenticated r) t u,
  admit_banned (record rl { banned = remove (get_ip r) rl.banned }) (get_ip r) (is_authenticated r)
      t u,
)

admit_other :
    (rl : RateLimiter) (ip other : String) (auth auth' : Bool) (t : Times)
    → ip ≢ other
    → (visitors auth' (admit rl ip auth t).0 other ≡ visitors auth' rl other)
      × ((admit rl ip auth t).0.banned other ≡ rl.banned other)
unfolding admit
admit_other rl ip other true true t h = ground (arith, ==-ne ip other h)
admit_other rl ip other true false t h = ground (arith, ==-ne ip other h)
admit_other rl ip other false true t h = ground (arith, ==-ne ip other h)
admit_other rl ip other false false t h = ground (arith, ==-ne ip other h)

-- A request changes nothing about any other address: not its counters in either tier, nor its ban.
pub handler_other :
    (net : NetParser) (rl : RateLimiter) (r : Request) (t : Times) (auth : Bool) (other : String)
    → get_ip r ≢ other
    → (visitors auth (handler net rl r t).0 other ≡ visitors auth rl other)
      × ((handler net rl r t).0.banned other ≡ rl.banned other)
unfolding handler check_ban
handler_other net rl r t true other h =
    let ip = get_ip r in
    let cleared = record rl { banned = remove ip rl.banned } in
    ground (
      arith,
      admit_other rl ip other (is_authenticated r) true t h,
      admit_other cleared ip other (is_authenticated r) true t h,
      ==-ne ip other h,
    )
handler_other net rl r t false other h =
    let ip = get_ip r in
    let cleared = record rl { banned = remove ip rl.banned } in
    ground (
      arith,
      admit_other rl ip other (is_authenticated r) false t h,
      admit_other cleared ip other (is_authenticated r) false t h,
      ==-ne ip other h,
    )

pub handler_aborts :
    (net : NetParser) (rl : RateLimiter) (r : Request) (t : Times) (u : ℕ)
    → rl.banned (get_ip r) ≡ some u
    → ¬ IsExempt net rl r
    → t.checked < u
    → handler net rl r t ≡ (rl, aborted)
unfolding handler check_ban
handler_aborts net rl r t u b h before = ground arith
