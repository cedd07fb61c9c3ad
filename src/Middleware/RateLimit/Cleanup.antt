-- ===== src/Middleware/RateLimit/Cleanup.antt =====
-- The clean-up loop forgets only what makes no difference to later requests.
use emly_go_api.Base.{
  ℕ, ◌*◌, ◌-◌, ◌≤◌, ◌<◌, true, false, some, List, [], ◌∷◌, String, ◌≡◌, refl, arith, Map, inl, inr,
  Bool-cases, Option-cases, All, ltb,
}
use emly_go_api.Base.Net.{NetParser}
use emly_go_api.Middleware.Request.{Request}
use emly_go_api.Middleware.RateLimit.Order.{IsLater, IsOrdered}
use emly_go_api.Middleware.RateLimit.Sweeping.{Alike, AlikeVisitor, AlikeBan, handler-Alike}
use emly_go_api.Middleware.RateLimit.{
  LimitConfig, IpState, RateLimiter, Times, Outcome, config, visitors, handler, sweep, sweep_bans,
  cleanup,
}

-- What a round forgets.
swept-AlikeVisitor :
    (s : ℕ) (cfg : LimitConfig) (m : Map String IpState) (ip : String)
    → ((v : IpState) → m ip ≡ some v → (v.window_start ≤ v.last_seen) × (v.last_seen ≤ s))
    → AlikeVisitor s cfg (m ip) (sweep cfg.window s m ip)
swept-AlikeVisitor s cfg m ip h = elim (Option-cases (m ip)) [
  | inl missing ↦ rw (missing, sweep) (inl refl)
  | inr (v, old) ↦
      let (started, seen) = h v old in
      rw (old, sweep)
        (elim (Bool-cases (ltb (cfg.window * 2) (s - v.last_seen))) [
          | inl idle ↦ rw idle (inr (refl, v, refl, ground arith))
          | inr kept ↦ rw kept (inl refl)
        ])
]

swept-AlikeBan : (s : ℕ) (b : Map String ℕ) (ip : String) → AlikeBan s (b ip) (sweep_bans s b ip)
swept-AlikeBan s b ip = elim (Option-cases (b ip)) [
  | inl missing ↦ rw (missing, sweep_bans) (inl refl)
  | inr (u, old) ↦
      rw (old, sweep_bans)
        (elim (Bool-cases (ltb u s)) [
          | inl over ↦ rw over (inr (refl, u, refl, ground arith))
          | inr kept ↦ rw kept (inl refl)
        ])
]

pub cleanup-Alike :
    (s : ℕ) (rl : RateLimiter)
    → 0 < rl.auth_cfg.max_reqs
    → 0 < rl.unauth_cfg.max_reqs
    → IsOrdered s rl
    → Alike s rl (cleanup s rl)
unfolding cleanup
cleanup-Alike s rl a b ordered = record {
  visitor = λ auth.
      elim auth
        as (λ c.
          (ip : String)
          → AlikeVisitor s (config c rl) (visitors c rl ip) (visitors c (cleanup s rl) ip)) [
            | true ↦ λ ip. swept-AlikeVisitor s rl.auth_cfg rl.auth_visitors ip (ordered true ip)
            | false ↦
                λ ip. swept-AlikeVisitor s rl.unauth_cfg rl.unauth_visitors ip (ordered false ip)
          ];
  ban = swept-AlikeBan s rl.banned;
  budget = λ auth. elim auth as (λ c. 0 < (config c rl).max_reqs) [ true ↦ a | false ↦ b ];
  same_config = λ auth. elim auth as (λ c. config c (cleanup s rl) ≡ config c rl) [
    | true ↦ refl
    | false ↦ refl
  ];
  same_key = refl;
}

-- What the limiter answers to requests, one after another.
abbrev pub answers : NetParser → List (Request × Times) → RateLimiter → List Outcome
answers net [] rl = []
answers net ((r, t) ∷ requests) rl =
    (handler net rl r t).1 ∷ answers net requests (handler net rl r t).0

-- The readings of the clock come after the moment, in order, and the one for the window of a new
-- visitor is the one that its request is recorded with.
abbrev pub IsReadAfter : ℕ → Request × Times → Type 0
IsReadAfter s (r, t) = IsLater s t × (t.opened ≡ t.recorded)

answers-Alike :
    (net : NetParser) (s : ℕ) (requests : List (Request × Times)) (rl rl' : RateLimiter)
    → Alike s rl rl'
    → All (IsReadAfter s) requests
    → answers net requests rl' ≡ answers net requests rl
answers-Alike net s [] rl rl' h all = refl
answers-Alike net s ((r, t) ∷ requests) rl rl' h ((later, same), all) =
    let (next, answer) = handler-Alike net s rl rl' r t h later same in
    let rest =
      answers-Alike net s requests (handler net rl r t).0 (handler net rl' r t).0 next all in
    cc (answer, rest)

-- A round of the clean-up changes no answer to the requests after it, however many, of any addresses,
-- one after another: if their readings of the clock come after the round, in order, the window of a
-- new visitor starts at the reading that its request is recorded with, each tier allows a request a
-- window, and before the round no visitor's window starts after the visitor was last seen, and none
-- was seen after the round.
pub answers-cleanup :
    (net : NetParser) (rl : RateLimiter) (s : ℕ) (requests : List (Request × Times))
    → 0 < rl.auth_cfg.max_reqs
    → 0 < rl.unauth_cfg.max_reqs
    → IsOrdered s rl
    → All (IsReadAfter s) requests
    → answers net requests (cleanup s rl) ≡ answers net requests rl
answers-cleanup net rl s requests a b ordered all =
    answers-Alike net s requests rl (cleanup s rl) (cleanup-Alike s rl a b ordered) all
