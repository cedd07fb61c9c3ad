-- ===== src/PresenceHub/Effects.antt =====
-- What each operation does to the table of entries, the channels and the timers.
use emly_go_api.Base.{
  ℕ, ◌+◌, Option, none, some, List, ◌∷◌, ◌≡◌, ap, subst, ◌⊎◌, inl, inr, ◌==◌, nat_eq, if◌then◌else◌,
  arith,
}
use mathlib.Core.List.{Memᴰ}
use emly_go_api.PresenceHub.{Hub, Entry, Token, Timer, connect, disconnect, fire, u64}

pub entries-connect :
    (h : Hub) (c j : ℕ)
    → (connect h c).0.entries j ≡ (
        if c == j
        then some (record { gen = u64 (h.next_gen + 1); grace_timer = none })
        else h.entries j)
unfolding connect
entries-connect h c j = ground arith

pub next_gen-connect : (h : Hub) (c : ℕ) → (connect h c).0.next_gen ≡ u64 (h.next_gen + 1)
unfolding connect
next_gen-connect h c = ground arith

pub token-connect :
    (h : Hub) (c : ℕ) → (connect h c).1 ≡ record { client_id = c; gen = u64 (h.next_gen + 1) }
unfolding connect
token-connect h c = ground arith

pub timers-connect : (h : Hub) (c : ℕ) → (connect h c).0.timers ≡ h.timers
unfolding connect
timers-connect h c = ground arith

abbrev pub close_old : Option Entry → List ℕ → List ℕ
close_old none l = l
close_old (some e) l = e.gen ∷ l

pub closed-connect : (h : Hub) (c : ℕ) → (connect h c).0.closed ≡ close_old (h.entries c) h.closed
unfolding connect
closed-connect h c = ground arith

pub next_gen-disconnect :
    (h : Hub) (tok : Token) (now : ℕ) → (disconnect h tok now).next_gen ≡ h.next_gen
unfolding disconnect
next_gen-disconnect h tok now = ground arith

pub closed-disconnect : (h : Hub) (tok : Token) (now : ℕ) → (disconnect h tok now).closed ≡ h.closed
unfolding disconnect
closed-disconnect h tok now = ground arith

abbrev entry_or : Entry → Option Entry → Entry
entry_or e none = e
entry_or e (some x) = x

-- Disconnect keeps every entry with its generation, and makes none.
pub disconnect_back :
    (h : Hub) (tok : Token) (now c : ℕ) (e' : Entry)
    → (disconnect h tok now).entries c ≡ some e'
    → (e : Entry) × (h.entries c ≡ some e) × (e.gen ≡ e'.gen)
unfolding disconnect
disconnect_back h tok now c e' p = (entry_or e' (h.entries c), ground arith, ground arith)

pub disconnect_forth :
    (h : Hub) (tok : Token) (now c : ℕ) (e : Entry)
    → h.entries c ≡ some e
    → (e' : Entry) × ((disconnect h tok now).entries c ≡ some e') × (e'.gen ≡ e.gen)
unfolding disconnect
disconnect_forth h tok now c e p =
    (entry_or e ((disconnect h tok now).entries c), ground arith, ground arith)

abbrev new_timer : Hub → Token → ℕ → Timer
new_timer h tok now = record {
  id = h.next_timer;
  client_id = tok.client_id;
  gen = tok.gen;
  due = now + h.grace;
}

timers-disconnect_cases :
    (h : Hub) (tok : Token) (now : ℕ)
    → ((disconnect h tok now).timers ≡ h.timers)
      ⊎ ((disconnect h tok now).timers ≡ new_timer h tok now ∷ h.timers)
unfolding disconnect
timers-disconnect_cases h tok now = ground arith

mem_new_timer :
    (h : Hub) (tok : Token) (now : ℕ) (t : Timer)
    → Memᴰ t (new_timer h tok now ∷ h.timers)
    → ((t.client_id ≡ tok.client_id) × (t.gen ≡ tok.gen)) ⊎ Memᴰ t h.timers
mem_new_timer h tok now t (Memᴰ.head e) = inl (ap (λ x. x.client_id) e, ap (λ x. x.gen) e)
mem_new_timer h tok now t (Memᴰ.tail m) = inr m

-- The one timer that Disconnect may arm is for the token's client and generation.
pub timers-disconnect :
    (h : Hub) (tok : Token) (now : ℕ) (t : Timer)
    → Memᴰ t (disconnect h tok now).timers
    → ((t.client_id ≡ tok.client_id) × (t.gen ≡ tok.gen)) ⊎ Memᴰ t h.timers
timers-disconnect h tok now t m = elim (timers-disconnect_cases h tok now) [
  | inl e ↦ inr (subst (Memᴰ t) e m)
  | inr e ↦ mem_new_timer h tok now t (subst (Memᴰ t) e m)
]

pub fire_back :
    (h : Hub) (t : Timer) (c : ℕ) (e : Entry) → (fire h t).entries c ≡ some e → h.entries c ≡ some e
unfolding fire
fire_back h t c e p = ground arith

-- A callback removes an entry only of its own client and generation.
pub fire_forth :
    (h : Hub) (t : Timer) (c : ℕ) (e : Entry)
    → h.entries c ≡ some e
    → ((fire h t).entries c ≡ some e) ⊎ ((t.client_id ≡ c) × (t.gen ≡ e.gen))
unfolding fire
fire_forth h t c e p = ground arith

pub rest-fire :
    (h : Hub) (t : Timer)
    → ((fire h t).next_gen ≡ h.next_gen)
      × ((fire h t).closed ≡ h.closed)
      × ((fire h t).timers ≡ h.timers)
unfolding fire
rest-fire h t = (ground arith, ground arith, ground arith)
