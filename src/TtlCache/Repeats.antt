-- ===== src/TtlCache/Repeats.antt =====
-- What a built value means for the calls that follow it.
use emly_go_api.Base.{
  ℕ, suc, ◌+◌, ◌≤◌, ◌<◌, false, none, some, List, [], ◌∷◌, ◌++◌, String, ◌≡◌, ◌≢◌, refl, sym, ◌∙◌,
  ap, length, get_elem?, set, ◌==◌, string_eq, arith, Bool-cases, Option-cases, inl, inr, All,
  get_elem?-set_self, get_elem?-set_ne, get_elem?-append_left, length-append, length-set,
}
use text.Mathlib.TextEquality.{eq_iff}
use emly_go_api.TtlCache.{
  Cache, Entry, Result, ok, err, max_entries, find, acquire, live, rebuild, get,
}
use emly_go_api.TtlCache.Memo.{
  bounded_room, acquire_present, find-acquire, live_before, rebuild_ok, rebuild-live, get_enabled,
  ttl-acquire,
}

-- A call of Get: its key, the moment of its test, what its `build` would give, and the moment after.
pub record Call (T : Type 0) : Type 0 where
  pub key : String
  pub now : ℕ
  pub built : Result T
  pub done : ℕ

module _ {T : Type 0} where
  abbrev pub run : List (Call T) → Cache T → Cache T
  run [] c = c
  run (call ∷ calls) c = run calls (get c call.key call.now call.built call.done).0

  -- Every place in the map is in the store, and no two keys share one.
  pub record IsLaidOut (c : Cache T) : Type 0 where
    pub placed : (k : String) (p : ℕ) → find k c.entries ≡ some p → p < length c.store
    pub apart :
        (k j : String) (p : ℕ) → find k c.entries ≡ some p → find j c.entries ≡ some p → k ≡ j

  -- The entry of the key holds the value until the moment.
  record Holds (key : String) (v : T) (expires_at : ℕ) (c : Cache T) : Type 0 where
    laid : IsLaidOut c
    enabled : 0 < c.ttl
    place : ℕ
    found : find key c.entries ≡ some place
    stored : get_elem? c.store place ≡ some (some (v, expires_at))

  -- A new key in a map with room.
  acquire_absent :
      (c : Cache T) (k : String)
      → find k c.entries ≡ none
      → length c.entries < max_entries
      → acquire c k ≡ (
        record c { entries = (k, length c.store) ∷ c.entries; store = c.store ++ none ∷ [] },
        length c.store,
      )
  unfolding acquire
  acquire_absent c k absent room =
      let same = bounded_room c.entries room in rw (same, absent, acquire) (rw same)

  opened-IsLaidOut :
      (c : Cache T) (k : String)
      → IsLaidOut c
      → IsLaidOut
          (record c { entries = (k, length c.store) ∷ c.entries; store = c.store ++ none ∷ [] })
  opened-IsLaidOut c k laid = record {
    placed = λ j p f. elim (Bool-cases (k == j)) [
      | inl hit ↦
          let new : some (length c.store) ≡ some p = rw hit at f in
          let same : length c.store ≡ p = cc in omega (arith, length-append {0} c.store (none ∷ []))
      | inr miss ↦
          omega (arith, length-append {0} c.store (none ∷ []), laid.placed j p (rw miss at f))
    ];
    apart = λ i j p f g. elim (Bool-cases (k == i)) [
      | inl hit ↦
          let new : some (length c.store) ≡ some p = rw hit at f in
          let same : length c.store ≡ p = cc in
          elim (Bool-cases (k == j)) [
            | inl hit' ↦ sym ((eq_iff k i).0 hit) ∙ (eq_iff k j).0 hit'
            | inr miss ↦ absurd (omega (arith, laid.placed j p (rw miss at g)))
          ]
      | inr miss ↦ elim (Bool-cases (k == j)) [
        | inl hit ↦
            let new : some (length c.store) ≡ some p = rw hit at g in
            let same : length c.store ≡ p = cc in
            absurd (omega (arith, laid.placed i p (rw miss at f)))
        | inr miss' ↦ laid.apart i j p (rw miss at f) (rw miss' at g)
      ]
    ];
  }

  acquire-IsLaidOut :
      (c : Cache T) (k : String)
      → IsLaidOut c
      → length c.entries < max_entries
      → IsLaidOut (acquire c k).0 × (length (acquire c k).0.entries ≤ suc (length c.entries))
  acquire-IsLaidOut c k laid room = elim (Option-cases (find k c.entries)) [
    | inl absent ↦ rw (acquire_absent c k absent room) (opened-IsLaidOut c k laid, omega arith)
    | inr (place, found) ↦ rw (acquire_present c k place found room) (laid, omega arith)
  ]

  set-IsLaidOut :
      (c : Cache T) (place : ℕ) (x : Entry T)
      → IsLaidOut c
      → IsLaidOut (record c { store = set c.store place x })
  set-IsLaidOut c place x laid = record {
    placed = λ k p f. omega (arith, length-set {0} c.store place x, laid.placed k p f);
    apart = laid.apart;
  }

  -- A call for another key, at a place that is not the key's.
  rebuild-Holds :
      (key : String) (v : T) (expires_at : ℕ) (c : Cache T) (place now done : ℕ) (built : Result T)
      → (h : Holds key v expires_at c) → place ≢ h.place
      → Holds key v expires_at (rebuild c place now built done).0
        × ((rebuild c place now built done).0.entries ≡ c.entries)
  unfolding rebuild
  rebuild-Holds key v expires_at c place now done built h apart =
      elim (Option-cases (live (get_elem? c.store place) now)) [
        | inr (old, alive) ↦ rw (rebuild-live c place now done built old alive) (h, refl)
        | inl dead ↦ go built dead
      ]
    where
      go :
          (built : Result T)
          → live (get_elem? c.store place) now ≡ none
          → Holds key v expires_at (rebuild c place now built done).0
            × ((rebuild c place now built done).0.entries ≡ c.entries)
      go (err e) dead = rw (dead, rebuild) (h, refl)
      go (ok w) dead = rw (rebuild_ok c place now done w dead) (
        record {
          laid = set-IsLaidOut c place (some (w, done + c.ttl)) h.laid;
          enabled = h.enabled;
          place = h.place;
          found = h.found;
          stored = get_elem?-set_ne c.store (some (w, done + c.ttl)) apart ∙ h.stored;
        },
        refl,
      )

  -- A call for the key returns the value and changes nothing.
  get_held :
      (key : String) (v : T) (expires_at : ℕ) (c : Cache T) (later done : ℕ) (built : Result T)
      → Holds key v expires_at c
      → length c.entries < max_entries
      → later < expires_at
      → get c key later built done ≡ (c, ok v)
  get_held key v expires_at c later done built h room before =
      let alive : live (get_elem? c.store h.place) later ≡ some v =
        rw h.stored (live_before v later expires_at before) in
      get_enabled c key later done built h.enabled
      ∙ rw (acquire_present c key h.place h.found room)
          (rebuild-live c h.place later done built v alive)

  -- What a call leaves: the entry as it was, and one key more at most.
  Keeps : String → T → ℕ → ℕ → Cache T × Result T → Type 0
  Keeps key v expires_at n r = Holds key v expires_at r.0 × (length r.0.entries ≤ suc n)

  get_other :
      (key k : String) (v : T) (expires_at : ℕ) (c : Cache T) (now done : ℕ) (built : Result T)
      → Holds key v expires_at c
      → length c.entries < max_entries
      → (k == key) ≡ false
      → Keeps key v expires_at (length c.entries) (get c k now built done)
  unfolding Keeps
  get_other key k v expires_at c now done built h room miss =
      rw (get_enabled c k now done built h.enabled) (elim (Option-cases (find k c.entries)) [
        | inr (place, found) ↦
            let apart : place ≢ h.place = λ same.
              cc
                ((eq_iff k key).1 (h.laid.apart k key h.place (rw (← same) found) h.found), miss) in
            let (kept, entries) = rebuild-Holds key v expires_at c place now done built h apart in
            rw (acquire_present c k place found room) (kept, rw entries (omega arith))
        | inl absent ↦
            let opened : Cache T = record c {
              entries = (k, length c.store) ∷ c.entries;
              store = c.store ++ none ∷ [];
            } in
            let below = h.laid.placed key h.place h.found in
            let h' : Holds key v expires_at opened = record {
              laid = opened-IsLaidOut c k h.laid;
              enabled = h.enabled;
              place = h.place;
              found = rw miss h.found;
              stored = get_elem?-append_left c.store (none ∷ []) h.place below ∙ h.stored;
            } in
            let (kept, entries) =
              rebuild-Holds key v expires_at opened (length c.store) now done built h'
                (λ same. omega arith) in
            rw (acquire_absent c k absent room) (kept, rw entries (omega arith))
      ])

  get-Keeps :
      (key : String) (v : T) (expires_at : ℕ) (c : Cache T) (call : Call T)
      → Holds key v expires_at c
      → length c.entries < max_entries
      → (call.key ≡ key → call.now < expires_at)
      → Keeps key v expires_at (length c.entries) (get c call.key call.now call.built call.done)
  unfolding Keeps
  get-Keeps key v expires_at c call h room before = elim (Bool-cases (call.key == key)) [
    | inl hit ↦
        let same : call.key ≡ key = (eq_iff call.key key).0 hit in
        rw (same, get_held key v expires_at c call.now call.done call.built h room (before same))
          (h, omega arith)
    | inr miss ↦ get_other key call.key v expires_at c call.now call.done call.built h room miss
  ]

  run-Holds :
      (key : String) (v : T) (expires_at : ℕ) (calls : List (Call T)) (c : Cache T)
      → Holds key v expires_at c
      → length c.entries + length calls < max_entries
      → All (λ call. call.key ≡ key → call.now < expires_at) calls
      → Holds key v expires_at (run calls c) × (length (run calls c).entries < max_entries)
  unfolding Keeps
  run-Holds key v expires_at [] c h room before = (h, omega arith)
  run-Holds key v expires_at (call ∷ calls) c h room (first, before) =
      let (kept, bound) = get-Keeps key v expires_at c call h (omega arith) first in
      run-Holds key v expires_at calls (get c call.key call.now call.built call.done).0 kept
        (omega arith) before

  first-Holds :
      (c : Cache T) (key : String) (now done : ℕ) (v : T)
      → 0 < c.ttl
      → IsLaidOut c
      → live (get_elem? (acquire c key).0.store (acquire c key).1) now ≡ none
      → length c.entries < max_entries
      → Keeps key v (done + c.ttl) (length c.entries) (get c key now (ok v) done)
  unfolding Keeps
  first-Holds c key now done v enabled laid dead room =
      let c₁ = (acquire c key).0 in
      let place = (acquire c key).1 in
      let (laid₁, bound) = acquire-IsLaidOut c key laid room in
      let found = find-acquire c key in
      let ttl = ttl-acquire c key in
      rw (get_enabled c key now done (ok v) enabled ∙ rebuild_ok c₁ place now done v dead) (
        record {
          laid = set-IsLaidOut c₁ place (some (v, done + c₁.ttl)) laid₁;
          enabled = rw ttl enabled;
          place = place;
          found = found;
          stored =
              get_elem?-set_self c₁.store place _ (laid₁.placed key place found)
              ∙ ap (λ n. some (some (v, done + n))) ttl;
        },
        bound,
      )

  -- Once a call of an enabled cache has run `build` and got v, every later call for that key before
  -- v's time to live is over returns v, whatever its own `build` would give, and changes nothing:
  -- after any calls, of this key and of others, one after another, if those of this key are before
  -- that moment too, if the map has room for a key of each, so that it is not dropped, and if at the
  -- start its places lie in the store and no two keys share one.
  pub get_memoizes :
      (c : Cache T) (key : String) (now done later done' : ℕ) (v : T) (built : Result T)
      (calls : List (Call T))
      → 0 < c.ttl
      → IsLaidOut c
      → live (get_elem? (acquire c key).0.store (acquire c key).1) now ≡ none
      → suc (length c.entries) + length calls < max_entries
      → All (λ call. call.key ≡ key → call.now < done + c.ttl) calls
      → later < done + c.ttl
      → get (run calls (get c key now (ok v) done).0) key later built done'
        ≡ (run calls (get c key now (ok v) done).0, ok v)
  unfolding Keeps
  get_memoizes c key now done later done' v built calls enabled laid dead room before h =
      let c₁ = (get c key now (ok v) done).0 in
      let (held, bound) = first-Holds c key now done v enabled laid dead (omega arith) in
      let (still, room₁) = run-Holds key v (done + c.ttl) calls c₁ held (omega arith) before in
      get_held key v (done + c.ttl) (run calls c₁) later done' built still room₁ h
