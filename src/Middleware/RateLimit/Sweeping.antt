-- ===== src/Middleware/RateLimit/Sweeping.antt =====
-- Two limiters that differ only in visitors whose window is over and bans that are over: what a
-- request makes of the two.
use emly_go_api.Base.{
  ℕ, ◌+◌, ◌≤◌, ◌<◌, Bool, true, false, Option, none, some, String, ◌≡◌, refl, sym, ◌∙◌, ap, arith,
  Map, update, remove, ◌==◌, string_eq, ◌⊎◌, inl, inr, Bool-cases, Option-cases, ltb, not, ◌&&◌,
}
use text.Mathlib.TextEquality.{eq_iff}
use emly_go_api.Base.Net.{NetParser}
use emly_go_api.Middleware.Request.{Request}
use emly_go_api.Middleware.ClientAddress.{get_ip}
use emly_go_api.Middleware.RateLimit.Order.{IsLater}
use emly_go_api.Middleware.RateLimit.{
  LimitConfig, IpState, RateLimiter, Times, config, visitors, with_visitors, visitor_or_fresh,
  count_request, Outcome, is_authenticated, is_private_ip, record_request, admit, check_ban,
  handler,
}

-- The second entry is the first one, or it is gone and the first one's window was over at `s`.
abbrev pub AlikeVisitor : ℕ → LimitConfig → Option IpState → Option IpState → Type 0
AlikeVisitor s cfg o o' =
    (o ≡ o') ⊎ ((o' ≡ none) × (v : IpState) × (o ≡ some v) × (v.window_start + cfg.window ≤ s))

-- The second ban is the first one, or it is gone and the first one was over at `s`.
abbrev pub AlikeBan : ℕ → Option ℕ → Option ℕ → Type 0
AlikeBan s o o' = (o ≡ o') ⊎ ((o' ≡ none) × (u : ℕ) × (o ≡ some u) × (u < s))

pub record Alike (s : ℕ) (rl rl' : RateLimiter) : Type 0 where
  pub visitor :
      (auth : Bool) (ip : String)
      → AlikeVisitor s (config auth rl) (visitors auth rl ip) (visitors auth rl' ip)
  pub ban : (ip : String) → AlikeBan s (rl.banned ip) (rl'.banned ip)
  pub budget : (auth : Bool) → 0 < (config auth rl).max_reqs
  pub same_config : (auth : Bool) → config auth rl' ≡ config auth rl
  pub same_key : rl'.dashboard_key ≡ rl.dashboard_key

-- A visitor that is gone is counted like one whose window is over.
count_request-Alike :
    (cfg : LimitConfig) (s now : ℕ) (o o' : Option IpState)
    → 0 < cfg.max_reqs
    → s ≤ now
    → AlikeVisitor s cfg o o'
    → count_request cfg (visitor_or_fresh now o') now
      ≡ count_request cfg (visitor_or_fresh now o) now
unfolding count_request
count_request-Alike cfg s now o o' budget later (inl same) = rw same refl
count_request-Alike cfg s now o o' budget later (inr (gone, v, old, over)) =
    rw (gone, old) (ground arith)

update-AlikeVisitor :
    (s : ℕ) (cfg : LimitConfig) (m m' : Map String IpState) (ip : String) (v v' : IpState)
    → v' ≡ v
    → ((k : String) → AlikeVisitor s cfg (m k) (m' k))
    → (k : String) → AlikeVisitor s cfg (update ip v m k) (update ip v' m' k)
update-AlikeVisitor s cfg m m' ip v v' same h k = elim (Bool-cases (ip == k)) [
  | inl hit ↦ rw (hit, same) (inl refl)
  | inr miss ↦ rw miss (h k)
]

with_visitors-Alike :
    (s : ℕ) (rl rl' : RateLimiter) (tier : Bool) (m m' : Map String IpState)
    → Alike s rl rl'
    → ((k : String) → AlikeVisitor s (config tier rl) (m k) (m' k))
    → Alike s (with_visitors tier m rl) (with_visitors tier m' rl')
with_visitors-Alike s rl rl' true m m' h new = record {
  visitor = λ auth.
      elim auth
        as (λ a.
          (ip : String)
          → AlikeVisitor s (config a (with_visitors true m rl))
              (visitors a (with_visitors true m rl) ip)
              (visitors a (with_visitors true m' rl') ip)) [ true ↦ new | false ↦ h.visitor false ];
  ban = h.ban;
  budget = λ auth. elim auth as (λ a. 0 < (config a (with_visitors true m rl)).max_reqs) [
    | true ↦ h.budget true
    | false ↦ h.budget false
  ];
  same_config = λ auth.
      elim auth
        as (λ a. config a (with_visitors true m' rl') ≡ config a (with_visitors true m rl)) [
          | true ↦ h.same_config true
          | false ↦ h.same_config false
        ];
  same_key = h.same_key;
}
with_visitors-Alike s rl rl' false m m' h new = record {
  visitor = λ auth.
      elim auth
        as (λ a.
          (ip : String)
          → AlikeVisitor s (config a (with_visitors false m rl))
              (visitors a (with_visitors false m rl) ip)
              (visitors a (with_visitors false m' rl') ip)) [ true ↦ h.visitor true | false ↦ new ];
  ban = h.ban;
  budget = λ auth. elim auth as (λ a. 0 < (config a (with_visitors false m rl)).max_reqs) [
    | true ↦ h.budget true
    | false ↦ h.budget false
  ];
  same_config = λ auth.
      elim auth
        as (λ a. config a (with_visitors false m' rl') ≡ config a (with_visitors false m rl)) [
          | true ↦ h.same_config true
          | false ↦ h.same_config false
        ];
  same_key = h.same_key;
}

with_bans-Alike :
    (s : ℕ) (rl rl' : RateLimiter) (b b' : Map String ℕ)
    → Alike s rl rl'
    → ((k : String) → AlikeBan s (b k) (b' k))
    → Alike s (record rl { banned = b }) (record rl' { banned = b' })
with_bans-Alike s rl rl' b b' h new = record {
  visitor = λ auth.
      elim auth
        as (λ a.
          (ip : String)
          → AlikeVisitor s (config a (record rl { banned = b }))
              (visitors a (record rl { banned = b }) ip)
              (visitors a (record rl' { banned = b' }) ip)) [
                | true ↦ h.visitor true
                | false ↦ h.visitor false
              ];
  ban = new;
  budget = λ auth. elim auth as (λ a. 0 < (config a (record rl { banned = b })).max_reqs) [
    | true ↦ h.budget true
    | false ↦ h.budget false
  ];
  same_config = λ auth.
      elim auth
        as (λ a. config a (record rl' { banned = b' }) ≡ config a (record rl { banned = b })) [
          | true ↦ h.same_config true
          | false ↦ h.same_config false
        ];
  same_key = h.same_key;
}

record_request-Alike :
    (s now : ℕ) (rl rl' : RateLimiter) (ip : String) (auth : Bool)
    → Alike s rl rl'
    → s ≤ now
    → Alike s (record_request rl ip auth now now).0 (record_request rl' ip auth now now).0
      × ((record_request rl' ip auth now now).1 ≡ (record_request rl ip auth now now).1)
unfolding record_request
record_request-Alike s now rl rl' ip auth h later =
    let counted : count_request (config auth rl') (visitor_or_fresh now (visitors auth rl' ip)) now
        ≡ count_request (config auth rl) (visitor_or_fresh now (visitors auth rl ip)) now =
      rw (h.same_config auth) (
        count_request-Alike (config auth rl) s now (visitors auth rl ip) (visitors auth rl' ip)
          (h.budget auth) later (h.visitor auth ip)) in
    (
      with_visitors-Alike s rl rl' auth _ _ h (
          update-AlikeVisitor s (config auth rl) (visitors auth rl) (visitors auth rl') ip _ _
            (ap (λ t. t.0) counted) (h.visitor auth)),
      ap (λ t. t.1) counted,
    )

-- The same answer, and limiters that still answer alike.
AlikeResults : ℕ → RateLimiter × Outcome → RateLimiter × Outcome → Type 0
AlikeResults s r r' = Alike s r.0 r'.0 × (r'.1 ≡ r.1)

update-AlikeBan :
    (s : ℕ) (b b' : Map String ℕ) (ip : String) (u : ℕ)
    → ((k : String) → AlikeBan s (b k) (b' k))
    → (k : String) → AlikeBan s (update ip u b k) (update ip u b' k)
update-AlikeBan s b b' ip u h k = elim (Bool-cases (ip == k)) [
  | inl hit ↦ rw hit (inl refl)
  | inr miss ↦ rw miss (h k)
]

remove-AlikeBan :
    (s : ℕ) (b b' : Map String ℕ) (ip : String)
    → ((k : String) → AlikeBan s (b k) (b' k))
    → (k : String) → AlikeBan s (remove ip b k) (remove ip b' k)
remove-AlikeBan s b b' ip h k = elim (Bool-cases (ip == k)) [
  | inl hit ↦ rw hit (inl refl)
  | inr miss ↦ rw miss (h k)
]

admit-Alike :
    (s : ℕ) (rl rl' : RateLimiter) (ip : String) (auth : Bool) (t : Times)
    → Alike s rl rl'
    → s ≤ t.recorded
    → t.opened ≡ t.recorded
    → AlikeResults s (admit rl ip auth t) (admit rl' ip auth t)
unfolding admit AlikeResults
admit-Alike s rl rl' ip auth t h later same = rw same (
    let (alike, verdict) = record_request-Alike s t.recorded rl rl' ip auth h later in
    let (next, v) = record_request rl ip auth t.recorded t.recorded in
    let next' = (record_request rl' ip auth t.recorded t.recorded).0 in
    rw verdict (elim (Bool-cases v.exceeded) [
      | inr within ↦ rw within (alike, refl)
      | inl over ↦ rw over (elim (Bool-cases v.should_ban) [
        | inr not_yet ↦ rw not_yet (alike, refl)
        | inl ban ↦ rw ban (
            (
              with_bans-Alike s next next' _ _ alike (
                  update-AlikeBan s next.banned next'.banned ip (t.banned_at + v.ban_dur)
                    alike.ban),
              refl,
            ))
      ])
    ]))

-- The first limiter drops a ban that the second has lost already.
removed-Alike :
    (s : ℕ) (rl rl' : RateLimiter) (ip : String)
    → rl'.banned ip ≡ none
    → Alike s rl rl'
    → Alike s (record rl { banned = remove ip rl.banned }) rl'
removed-Alike s rl rl' ip gone h = with_bans-Alike s rl rl' (remove ip rl.banned) rl'.banned h (λ k.
    elim (Bool-cases (ip == k)) [
      | inl hit ↦ rw hit (inl (sym (rw (← (eq_iff ip k).0 hit) gone)))
      | inr miss ↦ rw miss (h.ban k)
    ])

check_ban-Alike :
    (s : ℕ) (rl rl' : RateLimiter) (ip : String) (auth : Bool) (t : Times)
    → Alike s rl rl'
    → IsLater s t
    → t.opened ≡ t.recorded
    → AlikeResults s (check_ban rl ip auth t) (check_ban rl' ip auth t)
unfolding check_ban AlikeResults
check_ban-Alike s rl rl' ip auth t h l same = elim (h.ban ip) [
  | inr (gone, u, old, over) ↦
      let past : ltb t.checked u ≡ false = ground arith in
      rw (gone, old, check_ban)
        (rw past (
          admit-Alike s (record rl { banned = remove ip rl.banned }) rl' ip auth t
            (removed-Alike s rl rl' ip gone h) (omega arith) same))
  | inl equal ↦ elim (Option-cases (rl'.banned ip)) [
    | inl free ↦ rw (equal, free, check_ban) (admit-Alike s rl rl' ip auth t h (omega arith) same)
    | inr (u, found) ↦
        rw (equal, found, check_ban)
          (elim (Bool-cases (ltb t.checked u)) [
            | inl before ↦ rw before (h, refl)
            | inr past ↦ rw past (
                admit-Alike s (record rl { banned = remove ip rl.banned })
                  (record rl' { banned = remove ip rl'.banned }) ip auth t
                  (with_bans-Alike s rl rl' _ _ h (remove-AlikeBan s rl.banned rl'.banned ip h.ban))
                  (omega arith) same)
          ])
  ]
]

pub handler-Alike :
    (net : NetParser) (s : ℕ) (rl rl' : RateLimiter) (r : Request) (t : Times)
    → Alike s rl rl'
    → IsLater s t
    → t.opened ≡ t.recorded
    → Alike s (handler net rl r t).0 (handler net rl' r t).0
      × ((handler net rl' r t).1 ≡ (handler net rl r t).1)
unfolding handler AlikeResults
handler-Alike net s rl rl' r t h l same =
    let bypasses : RateLimiter → Bool =
      λ l. not (l.dashboard_key == "") && r.x_dashboard_key == l.dashboard_key in
    let test : bypasses rl' ≡ bypasses rl = rw h.same_key refl in
    elim (Bool-cases (bypasses rl)) [
      | inl exempt ↦ rw (exempt, test ∙ exempt) (h, refl)
      | inr other ↦
          rw (other, test ∙ other)
            (elim (Bool-cases (is_private_ip net (get_ip r))) [
              | inl private ↦ rw private (h, refl)
              | inr public ↦
                  rw public (check_ban-Alike s rl rl' (get_ip r) (is_authenticated r) t h l same)
            ])
    ]
