-- ===== src/StatsHub/Delivery.antt =====
-- What a subscriber finds in its buffer.
use emly_go_api.Base.{
  ℕ, suc, zero, ◌≤◌, ◌<◌, true, false, Option, none, some, List, [], ◌∷◌, ◌++◌, length, ltb,
  if◌then◌else◌, ◌==◌, nat_eq, ◌≡◌, refl, arith, Bool-cases, Option-cases, inl, inr, All,
  length-append, ◌∙◌, ltb→lt, ◌⊎◌, ap, sym,
}
use mathlib.Core.List.{append_assoc, append-nil}
use emly_go_api.StatsHub.{
  Subscriber, Hub, subscriber_buffer, offer, offer_all, publish, publish_each,
}

module _ {A : Type 0} where
  abbrev pub take : ℕ → List A → List A
  take zero xs = []
  take (suc n) [] = []
  take (suc n) (x ∷ xs) = x ∷ take n xs

  abbrev pub buffer_of : ℕ → List (Subscriber A) → Option (List A)
  buffer_of id [] = none
  buffer_of id (s ∷ subs) = if s.id == id then some s.buffer else buffer_of id subs

  abbrev pub map_buffer : (List A → List A) → Option (List A) → Option (List A)
  map_buffer f none = none
  map_buffer f (some b) = some (f b)

  take-append_full : (n : ℕ) (xs ys : List A) → length xs ≡ n → take n (xs ++ ys) ≡ xs
  take-append_full n [] ys e = rw (sym e) refl
  take-append_full n (x ∷ xs) ys e =
      rw (sym e) (ap (λ l. x ∷ l) (take-append_full (length xs) xs ys refl))

  -- The events that a buffer takes one by one are those that fit.
  fill : List A → List A → List A
  fill b [] = b
  fill b (ev ∷ evs) = fill (offer ev b) evs

  take_all : (n : ℕ) (xs : List A) → length xs ≤ n → take n xs ≡ xs
  take_all zero [] h = refl
  take_all zero (x ∷ xs) h = ground arith
  take_all (suc n) [] h = refl
  take_all (suc n) (x ∷ xs) h = ap (λ l. x ∷ l) (take_all n xs (omega (arith, h)))

  buffer_of-offer_all :
      (id : ℕ) (ev : A) (subs : List (Subscriber A))
      → buffer_of id (offer_all ev subs) ≡ map_buffer (offer ev) (buffer_of id subs)
  unfolding offer_all
  buffer_of-offer_all id ev [] = refl
  buffer_of-offer_all id ev (s ∷ subs) = ground (arith, buffer_of-offer_all id ev subs)

  fill-take :
      (b evs : List A)
      → length b ≤ subscriber_buffer
      → fill b evs ≡ take subscriber_buffer (b ++ evs)
  unfolding fill
  fill-take b [] h = rw (append-nil b) (sym (take_all subscriber_buffer b h))
  fill-take b (ev ∷ evs) h = elim (Bool-cases (ltb (length b) subscriber_buffer)) [
    | inl room ↦
        rw (room, fill)
          (fill-take (b ++ ev ∷ []) evs (omega (arith, length-append b (ev ∷ []), lt_of room))
            ∙ ap (take subscriber_buffer) (append_assoc b (ev ∷ []) evs))
    | inr full ↦
        let exact : length b ≡ subscriber_buffer = ground arith in
        rw (full, fill)
          (fill-take b evs h
            ∙ take-append_full subscriber_buffer b evs exact
            ∙ sym (take-append_full subscriber_buffer b (ev ∷ evs) exact))
  ]
    where
      lt_of : ltb (length b) subscriber_buffer ≡ true → length b < subscriber_buffer
      lt_of e = ground arith

  publish_each-fill :
      (h : Hub A) (id : ℕ) (evs : List A)
      → buffer_of id (publish_each h evs).subs ≡ map_buffer (λ b. fill b evs) (buffer_of id h.subs)
  unfolding publish_each fill
  publish_each-fill h id [] = same (buffer_of id h.subs)
    where
      same : (o : Option (List A)) → o ≡ map_buffer (λ b. b) o
      same none = refl
      same (some b) = refl
  publish_each-fill h id (ev ∷ evs) =
      publish_each-fill (publish h ev) id evs
      ∙ ap (map_buffer (λ b. fill b evs)) (buffer_of-offer_all id ev h.subs)
      ∙ both (buffer_of id h.subs)
    where
      both :
          (o : Option (List A))
          → map_buffer (λ b. fill b evs) (map_buffer (offer ev) o)
            ≡ map_buffer (λ b. fill (offer ev b) evs) o
      both none = refl
      both (some b) = refl

  buffer_of-bound :
      (id : ℕ) (subs : List (Subscriber A)) (b : List A)
      → All (λ s. length s.buffer ≤ subscriber_buffer) subs
      → buffer_of id subs ≡ some b
      → length b ≤ subscriber_buffer
  buffer_of-bound id [] b a e = cc
  buffer_of-bound id (s ∷ subs) b (h, a) e = elim (Bool-cases (s.id == id)) [
    | inl here ↦ let same : s.buffer ≡ b = ground arith in rw (sym same) h
    | inr other ↦ buffer_of-bound id subs b a (ground arith)
  ]

  -- If no buffer holds more than 16 events before, a subscriber that receives nothing meanwhile finds
  -- in its buffer, after any sequence of published events, what was in it and then the events in
  -- order, up to 16 in all; and one that is not subscribed gets no buffer.
  pub publish_each-buffer :
      (h : Hub A) (id : ℕ) (evs : List A)
      → All (λ s. length s.buffer ≤ subscriber_buffer) h.subs
      → buffer_of id (publish_each h evs).subs
        ≡ map_buffer (λ b. take subscriber_buffer (b ++ evs)) (buffer_of id h.subs)
  unfolding publish_each
  publish_each-buffer h id evs a = elim (Option-cases (buffer_of id h.subs)) [
    | inl absent ↦ rw (publish_each-fill h id evs, absent) refl
    | inr (b, there) ↦
        rw (publish_each-fill h id evs, there)
          (ap some (fill-take b evs (buffer_of-bound id h.subs b a there)))
  ]

  offer_all-bound :
      (ev : A) (subs : List (Subscriber A))
      → All (λ s. length s.buffer ≤ subscriber_buffer) subs
      → All (λ s. length s.buffer ≤ subscriber_buffer) (offer_all ev subs)
  unfolding offer_all
  offer_all-bound ev [] a = tt
  offer_all-bound ev (s ∷ subs) (h, a) =
      (room (Bool-cases (ltb (length s.buffer) subscriber_buffer)), offer_all-bound ev subs a)
    where
      room :
          ((ltb (length s.buffer) subscriber_buffer ≡ true)
            ⊎ (ltb (length s.buffer) subscriber_buffer ≡ false))
          → length (offer ev s.buffer) ≤ subscriber_buffer
      room (inl e) = rw e (
          omega
            (arith, length-append s.buffer (ev ∷ []), ltb→lt (length s.buffer) subscriber_buffer e))
      room (inr e) = rw e h

  -- No sequence of published events fills a buffer beyond its 16 places, if none is before.
  pub publish_each-bound :
      (h : Hub A) (evs : List A)
      → All (λ s. length s.buffer ≤ subscriber_buffer) h.subs
      → All (λ s. length s.buffer ≤ subscriber_buffer) (publish_each h evs).subs
  unfolding publish_each
  publish_each-bound h [] a = a
  publish_each-bound h (ev ∷ evs) a =
      publish_each-bound (publish h ev) evs (offer_all-bound ev h.subs a)
