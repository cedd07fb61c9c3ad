-- ===== src/PresenceHub/Steps.antt =====
-- The calls that callers and timers make, in any order.
use emly_go_api.Base.{ℕ, ◌+◌, ◌^◌, ◌<◌, List, [], ◌∷◌, nat_eq}
use mathlib.Core.List.{Memᴰ}
use emly_go_api.PresenceHub.{Hub, Token, Timer, new, connect, disconnect, fire}

-- The hub, every token that Connect has returned, and those given to Disconnect.
pub record World : Type 0 where
  pub hub : Hub
  pub issued : List Token
  pub dropped : List Token

abbrev pub start : ℕ → World
start grace = record { hub = new grace; issued = []; dropped = [] }

abbrev pub connected : World → ℕ → World
connected w client_id = record w {
  hub = (connect w.hub client_id).0;
  issued = (connect w.hub client_id).1 ∷ w.issued;
}

abbrev pub disconnected : World → Token → ℕ → World
disconnected w tok now = record w { hub = disconnect w.hub tok now; dropped = tok ∷ w.dropped }

abbrev pub fired : World → Timer → World
fired w t = record w { hub = fire w.hub t }

-- A timer that was armed may fire at any later point, once or more often, stopped or not.
-- The count of connections stays below 2 ^ 64.
pub data Reach (grace : ℕ) : World → Type 0 where
  started : Reach grace (start grace)
  connects :
      {w : World} (client_id : ℕ)
      → w.hub.next_gen + 1 < 2 ^ 64
      → Reach grace w
      → Reach grace (connected w client_id)
  disconnects :
      {w : World} (tok : Token) (now : ℕ)
      → Memᴰ tok w.issued
      → Reach grace w
      → Reach grace (disconnected w tok now)
  fires : {w : World} (t : Timer) → Memᴰ t w.hub.timers → Reach grace w → Reach grace (fired w t)
