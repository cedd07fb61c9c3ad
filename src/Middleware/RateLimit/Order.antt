-- ===== src/Middleware/RateLimit/Order.antt =====
-- The order of the moments in the visitor tables.
use emly_go_api.Base.{
  if-intro, ltb, not, ◌&&◌, ℕ, ◌≤◌, Bool, true, false, Option, none, some, String, ◌≡◌, arith, Map,
  remove, update, subst, if◌then◌else◌, ◌==◌, string_eq, string_eq, Bool-cases, inl, inr,
  Option-cases,
}
use emly_go_api.Base.Net.{NetParser}
use emly_go_api.Middleware.Request.{Request}
use emly_go_api.Middleware.ClientAddress.{get_ip}
use emly_go_api.Middleware.RateLimit.{
  LimitConfig, is_private_ip, aborted, IpState, RateLimiter, new, Times, visitors, visitor_or_fresh,
  count_request, Outcome, is_authenticated, record_request, admit, check_ban, handler,
}

-- The times of a request are read in order, from `now` on.
abbrev pub IsLater : ℕ → Times → Type 0
IsLater now t =
    (now ≤ t.checked)
    × (t.checked ≤ t.opened)
    × (t.opened ≤ t.recorded)
    × (t.recorded ≤ t.banned_at)

-- What holds of the visitor tables at a moment.
abbrev pub IsOrdered : ℕ → RateLimiter → Type 0
IsOrdered now rl =
    (auth : Bool) (ip : String) (v : IpState)
    → visitors auth rl ip ≡ some v
    → (v.window_start ≤ v.last_seen) × (v.last_seen ≤ now)

pub new-IsOrdered :
    (unauth auth : LimitConfig) (key : String) (now : ℕ) → IsOrdered now (new unauth auth key)
new-IsOrdered unauth auth key now true ip v e = cc
new-IsOrdered unauth auth key now false ip v e = cc

count_request-ordered :
    (cfg : LimitConfig) (v : IpState) (now : ℕ)
    → v.window_start ≤ now
    → ((count_request cfg v now).0.window_start ≤ (count_request cfg v now).0.last_seen)
      × ((count_request cfg v now).0.last_seen ≤ now)
unfolding count_request
count_request-ordered cfg v now h = ground arith

table-ordered :
    (cfg : LimitConfig) (m : Map String IpState) (ip other : String) (s opened now : ℕ)
    (v : IpState)
    → ((k : String) (w : IpState)
        → m k ≡ some w
        → (w.window_start ≤ w.last_seen) × (w.last_seen ≤ s))
    → s ≤ opened
    → opened ≤ now
    → update ip (count_request cfg (visitor_or_fresh opened (m ip)) now).0 m other ≡ some v
    → (v.window_start ≤ v.last_seen) × (v.last_seen ≤ now)
table-ordered cfg m ip other s opened now v h a b e = elim (Bool-cases (ip == other)) [
  | inl same ↦
      let w = visitor_or_fresh opened (m ip) in
      let kept : some (count_request cfg w now).0 ≡ some v = rw same at e in
      let is_v : (count_request cfg w now).0 ≡ v = cc in
      let started : w.window_start ≤ now = elim (Option-cases (m ip)) [
        | inl missing ↦ rw missing b
        | inr (u, old) ↦ rw old (omega (arith, h ip u old))
      ] in
      subst (λ (x : IpState). (x.window_start ≤ x.last_seen) × (x.last_seen ≤ now)) is_v
        (count_request-ordered cfg w now started)
  | inr differ ↦
      let old : m other ≡ some v = rw differ at e in
      (omega (arith, h other v old), omega (arith, h other v old))
]

pub record_request-IsOrdered :
    (rl : RateLimiter) (ip : String) (tier : Bool) (s opened now : ℕ)
    → IsOrdered s rl
    → s ≤ opened
    → opened ≤ now
    → IsOrdered now (record_request rl ip tier opened now).0
unfolding record_request
record_request-IsOrdered rl ip true s opened now h a b true other v e =
    table-ordered rl.auth_cfg rl.auth_visitors ip other s opened now v (h true) a b e
record_request-IsOrdered rl ip true s opened now h a b false other v e =
    omega (arith, h false other v e)
record_request-IsOrdered rl ip false s opened now h a b true other v e =
    omega (arith, h true other v e)
record_request-IsOrdered rl ip false s opened now h a b false other v e =
    table-ordered rl.unauth_cfg rl.unauth_visitors ip other s opened now v (h false) a b e

IsOrdered-later :
    (rl : RateLimiter) (s : ℕ) (t : Times) → IsOrdered s rl → IsLater s t → IsOrdered t.banned_at rl
IsOrdered-later rl s t h l auth k v e = omega (arith, h auth k v e)

visitors-admit :
    (rl : RateLimiter) (ip : String) (tier auth : Bool) (t : Times) (k : String)
    → visitors auth (admit rl ip tier t).0 k
      ≡ visitors auth (record_request rl ip tier t.opened t.recorded).0 k
unfolding admit
visitors-admit rl ip tier true t k = ground arith
visitors-admit rl ip tier false t k = ground arith

admit-IsOrdered :
    (rl : RateLimiter) (m : Map String ℕ) (ip : String) (tier : Bool) (s : ℕ) (t : Times)
    → IsOrdered s rl
    → IsLater s t
    → IsOrdered t.banned_at (admit (record rl { banned = m }) ip tier t).0
admit-IsOrdered rl m ip tier s t h l auth k v e =
    let rl' = record rl { banned = m } in
    let kept : IsOrdered s rl' = λ a.
      elim a
        as (λ b.
          (j : String) (w : IpState)
          → visitors b rl' j ≡ some w
          → (w.window_start ≤ w.last_seen) × (w.last_seen ≤ s)) [
            | true ↦ h true
            | false ↦ h false
          ] in
    omega (
      arith,
      record_request-IsOrdered rl' ip tier s t.opened t.recorded kept (omega arith) (omega arith)
          auth k v (rw (visitors-admit rl' ip tier auth t k) at e),
    )

abbrev OrderedAt : ℕ → RateLimiter × Outcome → Type 0
OrderedAt now result = IsOrdered now result.0

check_ban-IsOrdered :
    (rl : RateLimiter) (ip : String) (tier : Bool) (s : ℕ) (t : Times)
    → IsOrdered s rl
    → IsLater s t
    → OrderedAt t.banned_at (check_ban rl ip tier t)
unfolding check_ban
check_ban-IsOrdered rl ip tier s t h l = go (rl.banned ip)
  where
    go :
        (o : Option ℕ)
        → OrderedAt t.banned_at (elim o [
          | none ↦ admit rl ip tier t
          | some unban_at ↦
              if ltb t.checked unban_at
              then (rl, aborted)
              else admit (record rl { banned = remove ip rl.banned }) ip tier t
        ])
    go none = admit-IsOrdered rl rl.banned ip tier s t h l
    go (some unban_at) =
        if-intro (OrderedAt t.banned_at) (ltb t.checked unban_at) _ _ (IsOrdered-later rl s t h l)
          (admit-IsOrdered rl (remove ip rl.banned) ip tier s t h l)

-- If no visitor's window starts after the visitor was last seen, and none was seen after a moment,
-- then a request that reads the clock after it, in order, leaves this so for its own last reading.
pub handler-IsOrdered :
    (net : NetParser) (rl : RateLimiter) (r : Request) (s : ℕ) (t : Times)
    → IsOrdered s rl
    → IsLater s t
    → IsOrdered t.banned_at (handler net rl r t).0
unfolding handler
handler-IsOrdered net rl r s t h l =
    let same = IsOrdered-later rl s t h l in
    if-intro (OrderedAt t.banned_at)
      (not (rl.dashboard_key == "") && r.x_dashboard_key == rl.dashboard_key) _ _ same
      (if-intro (OrderedAt t.banned_at) (is_private_ip net (get_ip r)) _ _ same
        (check_ban-IsOrdered rl (get_ip r) (is_authenticated r) s t h l))
