-- ===== src/PresenceHub/Invariant.antt =====
-- What holds of the hub whatever calls were made in whatever order.
use emly_go_api.Base.{
  ℕ, ◌+◌, ◌^◌, ◌<◌, ◌≤◌, Option, none, some, ◌≡◌, ◌≢◌, refl, sym, ap, subst, ◌∙◌, ◌⊎◌, inl, inr,
  ◌==◌, nat_eq, nat_beq_iff, arith, Bool-cases,
}
use mathlib.Core.List.{Memᴰ}
use emly_go_api.PresenceHub.{Entry, Token, Timer, connect, u64}
use emly_go_api.PresenceHub.Steps.{
  World, start, connected, disconnected, fired, Reach, started, connects, disconnects, fires,
}
use emly_go_api.PresenceHub.Effects.{
  entries-connect, next_gen-connect, token-connect, timers-connect, close_old, closed-connect,
  next_gen-disconnect, closed-disconnect, disconnect_back, disconnect_forth, timers-disconnect,
  fire_back, fire_forth, rest-fire,
}

-- No later connection of the token's client.
abbrev pub IsNewest : World → Token → Type 0
IsNewest w t =
    (other : Token) → Memᴰ other w.issued → other.client_id ≡ t.client_id → other.gen ≤ t.gen

pub record Inv (w : World) : Type 0 where
  pub bounded : (t : Token) → Memᴰ t w.issued → (0 < t.gen) × (t.gen ≤ w.hub.next_gen)
  pub distinct :
      (t other : Token)
      → Memᴰ t w.issued
      → Memᴰ other w.issued
      → t.gen ≡ other.gen
      → t.client_id ≡ other.client_id
  pub entry_issued :
      (c : ℕ) (e : Entry)
      → w.hub.entries c ≡ some e
      → Memᴰ (record { client_id = c; gen = e.gen }) w.issued
  pub entry_newest :
      (c : ℕ) (e : Entry)
      → w.hub.entries c ≡ some e
      → IsNewest w (record { client_id = c; gen = e.gen })
  pub armed_dropped :
      (t : Timer)
      → Memᴰ t w.hub.timers
      → Memᴰ (record { client_id = t.client_id; gen = t.gen }) w.dropped
  pub held :
      (t : Token)
      → Memᴰ t w.issued
      → IsNewest w t
      → ¬ Memᴰ t w.dropped
      → (e : Entry) × (w.hub.entries t.client_id ≡ some e) × (e.gen ≡ t.gen)
  pub closed_bounded : (g : ℕ) → Memᴰ g w.hub.closed → g ≤ w.hub.next_gen
  pub open_entry : (c : ℕ) (e : Entry) → w.hub.entries c ≡ some e → ¬ Memᴰ e.gen w.hub.closed

start-Inv : (grace : ℕ) → Inv (start grace)
start-Inv grace = record {
  bounded = λ t m. elim m [ ];
  distinct = λ t other m. elim m [ ];
  entry_issued = λ c e p. cc;
  entry_newest = λ c e p. cc;
  armed_dropped = λ t m. elim m [ ];
  held = λ t m. elim m [ ];
  closed_bounded = λ g m. elim m [ ];
  open_entry = λ c e p. cc;
}

disconnected-Inv : (w : World) (tok : Token) (now : ℕ) → Inv w → Inv (disconnected w tok now)
disconnected-Inv w tok now h = record {
  bounded = λ t m. rw (next_gen-disconnect w.hub tok now) (h.bounded t m);
  distinct = h.distinct;
  entry_issued = λ c e p.
      let (old, q, same) = disconnect_back w.hub tok now c e p in
      subst (λ g. Memᴰ (record { client_id = c; gen = g }) w.issued) same (h.entry_issued c old q);
  entry_newest = λ c e p other m s.
      let (old, q, same) = disconnect_back w.hub tok now c e p in
      subst (λ (g : ℕ). other.gen ≤ g) same (h.entry_newest c old q other m s);
  armed_dropped = λ t m. elim (timers-disconnect w.hub tok now t m) [
    | inl (same_client, same_gen) ↦
        Memᴰ.head (λ i. record { client_id = same_client i; gen = same_gen i })
    | inr before ↦ Memᴰ.tail (h.armed_dropped t before)
  ];
  held = λ t m newest kept.
      let (old, q, same) = h.held t m newest (λ d. kept (Memᴰ.tail d)) in
      let (e, p, equal) = disconnect_forth w.hub tok now t.client_id old q in (e, p, equal ∙ same);
  closed_bounded = λ g m.
      rw (next_gen-disconnect w.hub tok now)
        (h.closed_bounded g (subst (Memᴰ g) (closed-disconnect w.hub tok now) m));
  open_entry = λ c e p m.
      let (old, q, same) = disconnect_back w.hub tok now c e p in
      h.open_entry c old q (
        subst (λ g. Memᴰ g w.hub.closed) (sym same)
          (subst (Memᴰ e.gen) (closed-disconnect w.hub tok now) m));
}

fired-Inv : (w : World) (t : Timer) → Memᴰ t w.hub.timers → Inv w → Inv (fired w t)
fired-Inv w t armed h =
    let (gens, closed, timers) = rest-fire w.hub t in
    record {
      bounded = λ tok m. rw gens (h.bounded tok m);
      distinct = h.distinct;
      entry_issued = λ c e p. h.entry_issued c e (fire_back w.hub t c e p);
      entry_newest = λ c e p. h.entry_newest c e (fire_back w.hub t c e p);
      armed_dropped = λ other m. h.armed_dropped other (subst (Memᴰ other) timers m);
      held = λ tok m newest kept.
          let (e, p, same) = h.held tok m newest kept in
          elim (fire_forth w.hub t tok.client_id e p) [
            | inl still ↦ (e, still, same)
            | inr (same_client, same_gen) ↦ absurd (
                kept (
                  subst (λ x. Memᴰ x w.dropped)
                    (λ i. record { client_id = same_client i; gen = (same_gen ∙ same) i })
                    (h.armed_dropped t armed)))
          ];
      closed_bounded = λ g m. rw gens (h.closed_bounded g (subst (Memᴰ g) closed m));
      open_entry =
          λ c e p m. h.open_entry c e (fire_back w.hub t c e p) (subst (Memᴰ e.gen) closed m);
    }

-- The changes that Connect makes, as cases.
module _ (w : World) (c : ℕ) (room : w.hub.next_gen + 1 < 2 ^ 64) where
  gen-connect : u64 (w.hub.next_gen + 1) ≡ w.hub.next_gen + 1
  gen-connect = omega arith

  issued_cases :
      (t : Token)
      → Memᴰ t (connected w c).issued
      → ((t.client_id ≡ c) × (t.gen ≡ w.hub.next_gen + 1)) ⊎ Memᴰ t w.issued
  issued_cases t (Memᴰ.head e) =
      let new = e ∙ token-connect w.hub c in
      inl (ap (λ x. x.client_id) new, ap (λ x. x.gen) new ∙ gen-connect)
  issued_cases t (Memᴰ.tail m) = inr m

  entries_cases :
      (j : ℕ) (e : Entry)
      → (connected w c).hub.entries j ≡ some e
      → ((c ≡ j) × (e.gen ≡ w.hub.next_gen + 1)) ⊎ ((c ≢ j) × (w.hub.entries j ≡ some e))
  entries_cases j e p =
      let q = sym (entries-connect w.hub c j) ∙ p in
      elim (Bool-cases (c == j)) [
        | inl hit ↦
            let new : some (record { gen = u64 (w.hub.next_gen + 1); grace_timer = none })
                ≡ some e =
              rw hit at q in
            inl ((nat_beq_iff c j).0 hit, ground (arith, gen-connect))
        | inr miss ↦ inr (ground arith, rw miss at q)
      ]

  closed_cases :
      (g : ℕ)
      → Memᴰ g (connected w c).hub.closed
      → ((e : Entry) × (w.hub.entries c ≡ some e) × (g ≡ e.gen)) ⊎ Memᴰ g w.hub.closed
  closed_cases g m = go (w.hub.entries c) refl (subst (Memᴰ g) (closed-connect w.hub c) m)
    where
      go :
          (o : Option Entry)
          → w.hub.entries c ≡ o
          → Memᴰ g (close_old o w.hub.closed)
          → ((e : Entry) × (w.hub.entries c ≡ some e) × (g ≡ e.gen)) ⊎ Memᴰ g w.hub.closed
      go none e n = inr n
      go (some old) e (Memᴰ.head same) = inl (old, e, same)
      go (some old) e (Memᴰ.tail n) = inr n

  module _ (h : Inv w) where
    entry_bounded : (j : ℕ) (e : Entry) → w.hub.entries j ≡ some e → e.gen ≤ w.hub.next_gen
    entry_bounded j e p =
        (h.bounded (record { client_id = j; gen = e.gen }) (h.entry_issued j e p)).1

    next : (connected w c).hub.next_gen ≡ w.hub.next_gen + 1
    next = next_gen-connect w.hub c ∙ gen-connect

    held_before :
        (t : Token)
        → Memᴰ t w.issued
        → IsNewest (connected w c) t
        → ¬ Memᴰ t w.dropped
        → (e : Entry) × ((connected w c).hub.entries t.client_id ≡ some e) × (e.gen ≡ t.gen)
    held_before t m newest kept = elim (Bool-cases (c == t.client_id)) [
      | inl hit ↦
          let mine : c ≡ t.client_id = (nat_beq_iff c t.client_id).0 hit in
          let token = token-connect w.hub c in
          let last =
            newest (connect w.hub c).1 (Memᴰ.head refl) (ap (λ x. x.client_id) token ∙ mine) in
          absurd (omega (arith, ap (λ x. x.gen) token ∙ gen-connect, last, (h.bounded t m).1))
      | inr miss ↦
          let (e, p, same) = h.held t m (λ other n. newest other (Memᴰ.tail n)) kept in
          (e, entries-connect w.hub c t.client_id ∙ rw miss p, same)
    ]

    connected-Inv : Inv (connected w c)
    connected-Inv = record {
      bounded = λ t m. elim (issued_cases t m) [
        | inl (_, is_new) ↦ (omega arith, omega (arith, next))
        | inr before ↦ let (pos, le) = h.bounded t before in (pos, omega (arith, next))
      ];
      distinct = λ t other m n same. elim (issued_cases t m) [
        | inl (mine, is_new) ↦ elim (issued_cases other n) [
          | inl (also, _) ↦ mine ∙ sym also
          | inr before ↦ absurd (omega (arith, (h.bounded other before).1))
        ]
        | inr before ↦ elim (issued_cases other n) [
          | inl (also, is_new) ↦ absurd (omega (arith, (h.bounded t before).1))
          | inr before' ↦ h.distinct t other before before' same
        ]
      ];
      entry_issued = λ j e p. elim (entries_cases j e p) [
        | inl (is_c, is_new) ↦ Memᴰ.head (
            (λ i. record { client_id = sym is_c i; gen = (is_new ∙ sym gen-connect) i })
            ∙ sym (token-connect w.hub c))
        | inr (_, before) ↦ Memᴰ.tail (h.entry_issued j e before)
      ];
      entry_newest = λ j e p other m same. elim (entries_cases j e p) [
        | inl (is_c, is_new) ↦ elim (issued_cases other m) [
          | inl (_, also_new) ↦ omega arith
          | inr before ↦ omega (arith, (h.bounded other before).1)
        ]
        | inr (not_c, before) ↦ elim (issued_cases other m) [
          | inl (is_c, _) ↦ absurd (not_c (sym is_c ∙ same))
          | inr old ↦ h.entry_newest j e before other old same
        ]
      ];
      armed_dropped = λ t m. h.armed_dropped t (subst (Memᴰ t) (timers-connect w.hub c) m);
      held = λ t m newest kept. elim (issued_cases t m) [
        | inl (mine, is_new) ↦ (
          record { gen = u64 (w.hub.next_gen + 1); grace_timer = none },
          entries-connect w.hub c t.client_id ∙ rw ((nat_beq_iff c t.client_id).1 (sym mine)),
          gen-connect ∙ sym is_new,
        )
        | inr before ↦ held_before t before newest kept
      ];
      closed_bounded = λ g m. elim (closed_cases g m) [
        | inl (e, p, same) ↦ omega (arith, next, entry_bounded c e p)
        | inr before ↦ omega (arith, next, h.closed_bounded g before)
      ];
      open_entry = λ j e p m. elim (entries_cases j e p) [
        | inl (is_c, is_new) ↦ elim (closed_cases e.gen m) [
          | inl (old, q, same) ↦ absurd (omega (arith, entry_bounded c old q))
          | inr before ↦ absurd (omega (arith, h.closed_bounded e.gen before))
        ]
        | inr (not_c, q) ↦ elim (closed_cases e.gen m) [
          | inl (old, r, same) ↦ not_c (
              sym (
                h.distinct (record { client_id = j; gen = e.gen })
                  (record { client_id = c; gen = old.gen }) (h.entry_issued j e q)
                  (h.entry_issued c old r) same))
          | inr before ↦ h.open_entry j e q before
        ]
      ];
    }

pub Reach-Inv : {grace : ℕ} (w : World) → Reach grace w → Inv w
Reach-Inv {grace} w started = start-Inv grace
Reach-Inv w (connects {w = before} c room r) = connected-Inv before c room (Reach-Inv before r)
Reach-Inv w (disconnects {w = before} tok now m r) =
    disconnected-Inv before tok now (Reach-Inv before r)
Reach-Inv w (fires {w = before} t m r) = fired-Inv before t m (Reach-Inv before r)
