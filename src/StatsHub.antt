-- ===== src/StatsHub.antt =====
-- internal/statshub/statshub.go: the event bus of the statistics stream.
-- A subscriber is a pointer in Go; here it goes by a number of its own. Its buffer is what the
-- channel holds and nobody has received yet.
pub mod Delivery
mod Examples
use emly_go_api.Base.{
  ℕ, suc, ◌+◌, Bool, true, false, not, Option, none, some, List, [], ◌∷◌, ◌++◌, length, ltb,
  if◌then◌else◌, ◌==◌, nat_eq,
}

-- Event: the row of the client and the event are those of other packages.
pub data Event (Client Entry : Type 0) : Type 0 where
  updater_event : Client → Entry → Event Client Entry
  tick : Event Client Entry

abbrev pub subscriber_buffer : ℕ
subscriber_buffer = 16

pub record Subscriber (A : Type 0) : Type 0 where
  pub id : ℕ
  pub buffer : List A

pub record Hub (A : Type 0) : Type 0 where
  pub subs : List (Subscriber A)
  pub next_id : ℕ

module _ {A : Type 0} where
  -- New
  abbrev pub new : Hub A
  new = record { subs = []; next_id = 0 }

  -- Subscribe: the hub and the subscriber's number.
  unfoldable pub subscribe : Hub A → Hub A × ℕ
  subscribe h = (
    record { subs = record { id = h.next_id; buffer = [] } ∷ h.subs; next_id = h.next_id + 1 },
    h.next_id,
  )

  unfoldable pub delete_sub : ℕ → List (Subscriber A) → List (Subscriber A)
  delete_sub id [] = []
  delete_sub id (s ∷ subs) = let rest = delete_sub id subs in if s.id == id then rest else s ∷ rest

  -- The function that Subscribe returns.
  unfoldable pub cancel : ℕ → Hub A → Hub A
  unfolding delete_sub
  cancel id h = record h { subs = delete_sub id h.subs }

  -- Active
  unfoldable pub active : Hub A → Bool
  active h = ltb 0 (length h.subs)

  -- The `select` of Publish: a full buffer drops the event.
  abbrev pub offer : A → List A → List A
  offer ev buffer = if ltb (length buffer) subscriber_buffer then buffer ++ ev ∷ [] else buffer

  unfoldable pub offer_all : A → List (Subscriber A) → List (Subscriber A)
  offer_all ev [] = []
  offer_all ev (s ∷ subs) = record s { buffer = offer ev s.buffer } ∷ offer_all ev subs

  -- Publish
  unfoldable pub publish : Hub A → A → Hub A
  unfolding offer_all
  publish h ev = record h { subs = offer_all ev h.subs }

  -- A sequence of calls of Publish.
  unfoldable pub publish_each : Hub A → List A → Hub A
  unfolding publish
  publish_each h [] = h
  publish_each h (ev ∷ evs) = publish_each (publish h ev) evs
