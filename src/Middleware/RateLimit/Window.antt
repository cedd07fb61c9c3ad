-- ===== src/Middleware/RateLimit/Window.antt =====
-- The budget of a window, for one address.
use Prim.Native.Nat.{min}
use emly_go_api.Base.{
  ℕ, ◌+◌, ◌-◌, ◌<◌, Bool, true, false, List, [], ◌∷◌, some, String, ◌≡◌, refl, arith, length, All,
  All-imp, if◌then◌else◌, ==-refl, string_eq, leb,
}
use emly_go_api.Middleware.RateLimit.{
  LimitConfig, IpState, RateLimiter, visitors, config, count_request, record_request,
}

-- How many of the requests of one address, made at these moments, pass the limit.
abbrev pub admitted : RateLimiter → String → Bool → List ℕ → ℕ
admitted rl ip auth [] = 0
admitted rl ip auth (t ∷ ts) =
    let (rl', v) = record_request rl ip auth t t in
    let rest = admitted rl' ip auth ts in if v.exceeded then rest else rest + 1

config-record_request :
    (rl : RateLimiter) (ip : String) (auth : Bool) (opened now : ℕ)
    → config auth (record_request rl ip auth opened now).0 ≡ config auth rl
unfolding record_request
config-record_request rl ip true opened now = refl
config-record_request rl ip false opened now = refl

visitors-record_request :
    (rl : RateLimiter) (ip : String) (auth : Bool) (opened now : ℕ) (v : IpState)
    → visitors auth rl ip ≡ some v
    → visitors auth (record_request rl ip auth opened now).0 ip
      ≡ some (count_request (config auth rl) v now).0
unfolding record_request
visitors-record_request rl ip true opened now v e = rw (==-refl ip, e)
visitors-record_request rl ip false opened now v e = rw (==-refl ip, e)

verdict-record_request :
    (rl : RateLimiter) (ip : String) (auth : Bool) (opened now : ℕ) (v : IpState)
    → visitors auth rl ip ≡ some v
    → (record_request rl ip auth opened now).1 ≡ (count_request (config auth rl) v now).1
unfolding record_request
verdict-record_request rl ip auth opened now v e = rw e

-- One request inside the window.
count_request_inside :
    (cfg : LimitConfig) (v : IpState) (now : ℕ)
    → now - v.window_start < cfg.window
    → ((count_request cfg v now).0.count ≡ v.count + 1)
      × ((count_request cfg v now).0.window_start ≡ v.window_start)
      × ((count_request cfg v now).1.exceeded ≡ leb cfg.max_reqs v.count)
unfolding count_request
count_request_inside cfg v now h = (ground arith, ground arith, ground arith)

-- However the requests of an address that has a visitor are spread over what is left of its window,
-- exactly the unused part of its tier's budget passes: the smaller of their number and
-- max_reqs - count, or none where the count is above max_reqs already.
pub admitted-eq-min :
    (rl : RateLimiter) (ip : String) (auth : Bool) (v : IpState) (ts : List ℕ)
    → visitors auth rl ip ≡ some v
    → All (λ t. t - v.window_start < (config auth rl).window) ts
    → admitted rl ip auth ts ≡ min (length ts) ((config auth rl).max_reqs - v.count)
admitted-eq-min rl ip auth v [] e h = omega arith
admitted-eq-min rl ip auth v (t ∷ ts) e (now, later) =
    let rl' = (record_request rl ip auth t t).0 in
    let v' = (count_request (config auth rl) v t).0 in
    let (counted, started, over) = count_request_inside (config auth rl) v t now in
    let same = config-record_request rl ip auth t t in
    let rest : admitted rl' ip auth ts ≡ min (length ts) ((config auth rl).max_reqs - v'.count) =
      rw same at (
        admitted-eq-min rl' ip auth v' ts (visitors-record_request rl ip auth t t v e)
          (All-imp ts (λ u h. rw (same, started) h) later)) in
    rw (verdict-record_request rl ip auth t t v e) (ground arith)
