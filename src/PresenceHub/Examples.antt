-- ===== src/PresenceHub/Examples.antt =====
-- One client that connects twice.
use emly_go_api.Base.{ap, ◌+◌, true, false, none, ◌∷◌, ◌≡◌, refl, arith}
use mathlib.Core.List.{Memᴰ}
use emly_go_api.PresenceHub.{Token, Timer, connect, disconnect, fire, online}
use emly_go_api.PresenceHub.Steps.{World, start, connected, Reach, started, connects}
use emly_go_api.PresenceHub.Invariant.{IsNewest}
use emly_go_api.PresenceHub.Presence.{online_while_connected, connect_closes_open, disconnect-fire}

abbrev first : Token
first = record { client_id = 7; gen = 1 }

abbrev second : Token
second = record { client_id = 7; gen = 2 }

abbrev once : World
once = connected (start 15) 7

abbrev twice : World
twice = connected once 7

once-Reach : Reach 15 once
once-Reach = connects 7 (omega arith) started

twice-Reach : Reach 15 twice
unfolding connect
twice-Reach = connects 7 (omega arith) once-Reach

newest : IsNewest twice second
unfolding connect
newest other (Memᴰ.head e) same = omega (arith, ap (λ t. t.gen) e)
newest other (Memᴰ.tail (Memᴰ.head e)) same = omega (arith, ap (λ t. t.gen) e)
newest other (Memᴰ.tail (Memᴰ.tail m)) same = elim m [ ]

online_while_connected_example : online twice.hub 7 ≡ true
unfolding connect
online_while_connected_example =
    online_while_connected twice second twice-Reach (Memᴰ.head refl) newest (λ m. elim m [ ])

connect_closes_open_example :
    ((connect once.hub 7).0.closed ≡ 1 ∷ once.hub.closed) × (¬ Memᴰ 1 once.hub.closed)
unfolding connect
connect_closes_open_example =
    connect_closes_open once 7 (record { gen = 1; grace_timer = none }) once-Reach refl

disconnect-fire_example :
    (timer : Timer) × ((disconnect once.hub first 30).timers ≡ timer ∷ once.hub.timers)
    × (timer.due ≡ 30 + 15)
    × (online (disconnect once.hub first 30) 7 ≡ true)
    × (online (fire (disconnect once.hub first 30) timer) 7 ≡ false)
unfolding connect
disconnect-fire_example =
    disconnect-fire once.hub first 30 (record { gen = 1; grace_timer = none }) refl refl
