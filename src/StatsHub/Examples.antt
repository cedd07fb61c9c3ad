-- ===== src/StatsHub/Examples.antt =====
-- A subscriber that has one event waiting, and two more published.
use emly_go_api.Base.{ℕ, [], ◌∷◌, ◌++◌, ◌≡◌, arith}
use emly_go_api.StatsHub.{Hub, subscriber_buffer, publish_each}
use emly_go_api.StatsHub.Delivery.{take, buffer_of, map_buffer, publish_each-buffer}

abbrev hub : Hub ℕ
hub = record { subs = record { id = 0; buffer = 7 ∷ [] } ∷ []; next_id = 1 }

publish_each-buffer_example :
    buffer_of 0 (publish_each hub (8 ∷ 9 ∷ [])).subs
    ≡ map_buffer (λ b. take subscriber_buffer (b ++ 8 ∷ 9 ∷ [])) (buffer_of 0 hub.subs)
publish_each-buffer_example = publish_each-buffer hub 0 (8 ∷ 9 ∷ []) (omega arith, tt)
