-- ===== src/Middleware/RateLimit/Bans.antt =====
-- For how long a ban holds, over the requests and the clean-up rounds that follow it.
use emly_go_api.Base.{
  remove, ℕ, ◌≤◌, ◌<◌, Bool, true, false, some, List, [], ◌∷◌, String, ◌≡◌, refl, ◌∙◌, arith, ◌==◌,
  string_eq, All, Bool-cases, inl, inr,
}
use text.Mathlib.TextEquality.{eq_iff}
use emly_go_api.Base.Net.{NetParser}
use emly_go_api.Middleware.Request.{Request}
use emly_go_api.Middleware.ClientAddress.{get_ip}
use emly_go_api.Middleware.RateLimit.{
  RateLimiter, Times, aborted, banned_until, admit, check_ban, record_request, handler,
  is_authenticated, cleanup,
}
use emly_go_api.Middleware.RateLimit.Handling.{
  IsExempt, handler_bans, handler_aborts, handler_other,
}

-- What the limiter goes through: requests, one after another, and rounds of cleanupLoop at a moment.
pub data Event : Type 0 where
  request : Request → Times → Event
  clean_up : ℕ → Event

abbrev pub after : NetParser → Event → RateLimiter → RateLimiter
after net (request r t) rl = (handler net rl r t).0
after net (clean_up now) rl = cleanup now rl

abbrev pub run : NetParser → List Event → RateLimiter → RateLimiter
run net [] rl = rl
run net (e ∷ es) rl = run net es (after net e rl)

-- The event looks at the bans before the end of this one, if it is about its address.
abbrev pub IsBefore : String → ℕ → Event → Type 0
IsBefore ip u (request r t) = get_ip r ≡ ip → t.checked < u
IsBefore ip u (clean_up now) = now ≤ u

-- A request of an address with a ban in force changes nothing, exempt or not.
handler_during :
    (net : NetParser) (rl : RateLimiter) (r : Request) (t : Times) (u : ℕ)
    → rl.banned (get_ip r) ≡ some u
    → t.checked < u
    → (handler net rl r t).0 ≡ rl
unfolding handler check_ban
handler_during net rl r t u b before = ground arith

dashboard_key-admit :
    (rl : RateLimiter) (ip : String) (auth : Bool) (t : Times)
    → (admit rl ip auth t).0.dashboard_key ≡ rl.dashboard_key
unfolding admit record_request
dashboard_key-admit rl ip true t = ground arith
dashboard_key-admit rl ip false t = ground arith

dashboard_key-handler :
    (net : NetParser) (rl : RateLimiter) (r : Request) (t : Times)
    → (handler net rl r t).0.dashboard_key ≡ rl.dashboard_key
unfolding handler check_ban
dashboard_key-handler net rl r t = ground (
  arith,
  dashboard_key-admit rl (get_ip r) (is_authenticated r) t,
  dashboard_key-admit (record rl { banned = remove (get_ip r) rl.banned }) (get_ip r)
      (is_authenticated r) t,
)

dashboard_key-run :
    (net : NetParser) (es : List Event) (rl : RateLimiter)
    → (run net es rl).dashboard_key ≡ rl.dashboard_key
unfolding cleanup
dashboard_key-run net [] rl = refl
dashboard_key-run net (request r t ∷ es) rl =
    dashboard_key-run net es (handler net rl r t).0 ∙ dashboard_key-handler net rl r t
dashboard_key-run net (clean_up now ∷ es) rl = dashboard_key-run net es (cleanup now rl)

banned-after :
    (net : NetParser) (e : Event) (rl : RateLimiter) (ip : String) (u : ℕ)
    → rl.banned ip ≡ some u
    → IsBefore ip u e
    → (after net e rl).banned ip ≡ some u
unfolding cleanup
banned-after net (clean_up now) rl ip u b before = ground arith
banned-after net (request r t) rl ip u b before = elim (Bool-cases (get_ip r == ip)) [
  | inl hit ↦
      let same : get_ip r ≡ ip = (eq_iff (get_ip r) ip).0 hit in
      rw (handler_during net rl r t u (rw same b) (before same)) b
  | inr miss ↦
      (handler_other net rl r t true ip (λ same. cc ((eq_iff (get_ip r) ip).1 same, miss))).1 ∙ b
]

banned-run :
    (net : NetParser) (es : List Event) (rl : RateLimiter) (ip : String) (u : ℕ)
    → rl.banned ip ≡ some u
    → All (IsBefore ip u) es
    → (run net es rl).banned ip ≡ some u
banned-run net [] rl ip u b h = b
banned-run net (e ∷ es) rl ip u b (before, h) =
    banned-run net es (after net e rl) ip u (banned-after net e rl ip u b before) h

-- A ban takes effect: once a request is answered 403 with a moment, every later request of its
-- address that is looked up before that moment and is not exempt is dropped and changes nothing.
-- Between the two there may be any requests, of this address and of others, handled one after
-- another, and any rounds of the clean-up, if those of this address are looked up before the moment
-- and the rounds are not after it.
pub handler_banned :
    (net : NetParser) (rl : RateLimiter) (r r' : Request) (t t' : Times) (u : ℕ) (es : List Event)
    → (handler net rl r t).1 ≡ banned_until u
    → All (IsBefore (get_ip r) u) es
    → get_ip r' ≡ get_ip r
    → ¬ IsExempt net rl r'
    → t'.checked < u
    → handler net (run net es (handler net rl r t).0) r' t'
      ≡ (run net es (handler net rl r t).0, aborted)
handler_banned net rl r r' t t' u es e between same h before =
    let later = run net es (handler net rl r t).0 in
    let key : later.dashboard_key ≡ rl.dashboard_key =
      dashboard_key-run net es (handler net rl r t).0 ∙ dashboard_key-handler net rl r t in
    let kept =
      banned-run net es (handler net rl r t).0 (get_ip r) u (handler_bans net rl r t u e) between in
    handler_aborts net later r' t' u (rw same kept) (rw key h) before
