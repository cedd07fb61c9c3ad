-- ===== src/PresenceHub.antt =====
-- internal/presencehub/presencehub.go: which clients hold an open connection.
-- A client id is only compared, so it is a number. Each entry has a channel of its own, which goes
-- by the entry's generation. The state of the runtime is explicit: the channels that are closed
-- (a second close would panic), the timers that were ever armed, and those that were stopped. A
-- timer's callback may run after Stop, when it was waiting for the lock already.
pub mod Steps
mod Effects
pub mod Invariant
pub mod Presence
mod Examples
use emly_go_api.Base.{
  ℕ, suc, ◌+◌, ◌%◌, ◌^◌, Bool, true, false, ◌||◌, not, Option, none, some, List, [], ◌∷◌, Map,
  empty, update, remove, ◌==◌, nat_eq, if◌then◌else◌,
}

pub record Token : Type 0 where
  pub client_id : ℕ
  pub gen : ℕ

-- The zero value of Token.
abbrev pub zero_token : Token
zero_token = record { client_id = 0; gen = 0 }

pub record Timer : Type 0 where
  pub id : ℕ
  pub client_id : ℕ
  pub gen : ℕ
  -- The moment at which it fires.
  pub due : ℕ

pub record Entry : Type 0 where
  pub gen : ℕ
  pub grace_timer : Option ℕ

pub record Hub : Type 0 where
  pub grace : ℕ
  pub entries : Map ℕ Entry
  -- uint64
  pub next_gen : ℕ
  pub closed : List ℕ
  pub timers : List Timer
  pub stopped : List ℕ
  pub next_timer : ℕ

-- New
abbrev pub new : ℕ → Hub
new grace = record {
  grace = grace;
  entries = empty;
  next_gen = 0;
  closed = [];
  timers = [];
  stopped = [];
  next_timer = 0;
}

abbrev pub u64 : ℕ → ℕ
u64 n = n % 2 ^ 64

-- `if old.graceTimer != nil { old.graceTimer.Stop() }`
abbrev pub stop : Option ℕ → Hub → Hub
stop none h = h
stop (some timer) h = record h { stopped = timer ∷ h.stopped }

-- `if old, ok := h.entries[clientID]; ok { … }`
abbrev pub supersede : Option Entry → Hub → Hub
supersede none h = h
supersede (some old) h =
    let h' = stop old.grace_timer h in record h' { closed = old.gen ∷ h'.closed }

-- Connect on a hub that is not nil. The channel that it returns goes by the token's generation.
unfoldable pub connect : Hub → ℕ → Hub × Token
connect h client_id =
    let h' = supersede (h.entries client_id) h in
    let gen = u64 (h'.next_gen + 1) in
    (
      record h' {
        next_gen = gen;
        entries = update client_id (record { gen = gen; grace_timer = none }) h'.entries;
      },
      record { client_id = client_id; gen = gen },
    )

-- Disconnect on a hub that is not nil, at the moment `now`.
unfoldable pub disconnect : Hub → Token → ℕ → Hub
disconnect h tok now = elim (h.entries tok.client_id) [
  | none ↦ h
  | some e ↦ if not (e.gen == tok.gen) then h else record h {
    entries = update tok.client_id (record e { grace_timer = some h.next_timer }) h.entries;
    timers =
        record { id = h.next_timer; client_id = tok.client_id; gen = tok.gen; due = now + h.grace }
        ∷ h.timers;
    next_timer = h.next_timer + 1;
  }
]

-- The callback of a timer.
unfoldable pub fire : Hub → Timer → Hub
fire h t = elim (h.entries t.client_id) [
  | none ↦ h
  | some cur ↦ if cur.gen == t.gen then record h { entries = remove t.client_id h.entries } else h
]

-- Online on a hub that is not nil.
unfoldable pub online : Hub → ℕ → Bool
online h client_id = elim (h.entries client_id) [ none ↦ false | some _ ↦ true ]

-- The three methods on a pointer that may be nil.
unfoldable pub connect_ptr : Option Hub → ℕ → Option Hub × Token
unfolding connect
connect_ptr none client_id = (none, zero_token)
connect_ptr (some h) client_id = let (h', tok) = connect h client_id in (some h', tok)

unfoldable pub disconnect_ptr : Option Hub → Token → ℕ → Option Hub
unfolding disconnect
disconnect_ptr none tok now = none
disconnect_ptr (some h) tok now = some (disconnect h tok now)

unfoldable pub online_ptr : Option Hub → ℕ → Bool
unfolding online
online_ptr none client_id = false
online_ptr (some h) client_id = online h client_id
