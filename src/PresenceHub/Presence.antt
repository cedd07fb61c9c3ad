-- ===== src/PresenceHub/Presence.antt =====
-- What callers may rely on.
use emly_go_api.Base.{
  ℕ, ◌+◌, ◌<◌, true, false, Option, none, some, ◌∷◌, ◌≡◌, refl, ◌∙◌, ◌==◌, nat_eq, arith,
}
use mathlib.Core.List.{Memᴰ}
use emly_go_api.PresenceHub.{Hub, Entry, Token, Timer, connect, disconnect, fire, online}
use emly_go_api.PresenceHub.Steps.{World, Reach}
use emly_go_api.PresenceHub.Effects.{closed-connect}
use emly_go_api.PresenceHub.Invariant.{Inv, IsNewest, Reach-Inv}

-- In every state that fewer than 2^64 connections lead to, a client whose newest connection has not
-- been disconnected is online, whatever else happened: disconnects of older connections of it, and
-- callbacks of any timer ever armed, stopped or not.
pub online_while_connected :
    {grace : ℕ} (w : World) (t : Token)
    → Reach grace w
    → Memᴰ t w.issued
    → IsNewest w t
    → ¬ Memᴰ t w.dropped
    → online w.hub t.client_id ≡ true
unfolding online
online_while_connected w t r m newest kept =
    let (e, p, same) = (Reach-Inv w r).held t m newest kept in rw (p, online)

-- In every state that fewer than 2^64 connections lead to, Disconnect by a connection that a later
-- one of the client has superseded changes nothing.
pub disconnect_superseded :
    {grace : ℕ} (w : World) (t later : Token) (now : ℕ)
    → Reach grace w
    → Memᴰ t w.issued
    → Memᴰ later w.issued
    → later.client_id ≡ t.client_id
    → t.gen < later.gen
    → disconnect w.hub t now ≡ w.hub
unfolding disconnect
disconnect_superseded w t later now r m n same older = go (w.hub.entries t.client_id) refl
  where
    h : Inv w
    h = Reach-Inv w r

    go : (o : Option Entry) → w.hub.entries t.client_id ≡ o → disconnect w.hub t now ≡ w.hub
    go none e = rw (e, disconnect)
    go (some x) e =
        let newer = h.entry_newest t.client_id x e later n same in
        let other : (x.gen == t.gen) ≡ false = ground arith in rw (e, disconnect, other)

-- In every state that fewer than 2^64 connections lead to, Connect of a client that is online closes
-- one channel, that of the connection it supersedes, and that one was open: a second close would
-- panic.
pub connect_closes_open :
    {grace : ℕ} (w : World) (client_id : ℕ) (e : Entry)
    → Reach grace w
    → w.hub.entries client_id ≡ some e
    → ((connect w.hub client_id).0.closed ≡ e.gen ∷ w.hub.closed) × (¬ Memᴰ e.gen w.hub.closed)
connect_closes_open w client_id e r p =
    (closed-connect w.hub client_id ∙ rw p, (Reach-Inv w r).open_entry client_id e p)

-- In every state that fewer than 2^64 connections lead to, a client that is online has a connection
-- that is the newest of its connections.
pub online-IsNewest :
    {grace : ℕ} (w : World) (client_id : ℕ)
    → Reach grace w
    → online w.hub client_id ≡ true
    → (t : Token) × (t.client_id ≡ client_id) × Memᴰ t w.issued × IsNewest w t
unfolding online
online-IsNewest w client_id r on = go (w.hub.entries client_id) refl
  where
    go :
        (o : Option Entry)
        → w.hub.entries client_id ≡ o
        → (t : Token) × (t.client_id ≡ client_id) × Memᴰ t w.issued × IsNewest w t
    go none e = cc (rw (e, online) at on)
    go (some x) e =
        let h = Reach-Inv w r in
        (
          record { client_id = client_id; gen = x.gen },
          refl,
          h.entry_issued client_id x e,
          h.entry_newest client_id x e,
        )

-- The grace period: a disconnect of the client's current connection leaves the client online, and
-- arms a timer that is due when the grace period is over and takes the client off when it fires.
pub disconnect-fire :
    (h : Hub) (t : Token) (now : ℕ) (e : Entry)
    → h.entries t.client_id ≡ some e
    → e.gen ≡ t.gen
    → (timer : Timer) × ((disconnect h t now).timers ≡ timer ∷ h.timers)
      × (timer.due ≡ now + h.grace)
      × (online (disconnect h t now) t.client_id ≡ true)
      × (online (fire (disconnect h t now) timer) t.client_id ≡ false)
unfolding online disconnect fire
disconnect-fire h t now e p same = (
  record { id = h.next_timer; client_id = t.client_id; gen = t.gen; due = now + h.grace },
  ground arith,
  refl,
  ground arith,
  ground arith,
)
