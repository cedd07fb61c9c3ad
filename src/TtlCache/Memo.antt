-- ===== src/TtlCache/Memo.antt =====
-- The steps of a call of `Get`, what a failed one leaves, and the bound on the map.
use emly_go_api.Base.{
  ℕ, ◌+◌, ◌≤◌, ◌<◌, true, Option, none, some, List, [], ◌∷◌, ◌++◌, String, ◌≡◌, refl, ◌∙◌, length,
  get_elem?, set, leb, string_eq, ==-refl, arith, Bool-cases, Option-cases, inl, inr,
  get_elem?-append_last,
}
use emly_go_api.TtlCache.{
  Cache, Entry, Result, ok, err, max_entries, find, bounded, acquire, live, rebuild, get,
}

pub find-bounded :
    (m : List (String × ℕ)) (key : String) (place : ℕ)
    → find key (bounded m) ≡ some place
    → find key m ≡ some place
find-bounded m key place e = elim (Bool-cases (leb max_entries (length m))) [
  | inl full ↦ absurd (none≢some (rw full at e))
  | inr room ↦ rw room at e
]
  where
    none≢some : {n : ℕ} → none ≡ some n → ⊥
    none≢some p = cc

pub bounded_room : (m : List (String × ℕ)) → length m < max_entries → bounded m ≡ m
bounded_room m h = ground arith

module _ {T : Type 0} where
  -- Whatever keys callers ask for, the map never holds more than 512 after its lock is released.
  pub acquire_bound : (c : Cache T) (key : String) → length (acquire c key).0.entries ≤ max_entries
  unfolding acquire
  acquire_bound c key = elim (Option-cases (find key (bounded c.entries))) [
    | inl absent ↦ rw (absent, acquire) (ground arith)
    | inr (place, found) ↦ rw (found, acquire) (ground arith)
  ]

  -- After a call the key is in the map, at the place that the caller holds.
  pub find-acquire :
      (c : Cache T) (key : String) → find key (acquire c key).0.entries ≡ some (acquire c key).1
  unfolding acquire
  find-acquire c key = elim (Option-cases (find key (bounded c.entries))) [
    | inl absent ↦ rw (absent, acquire, ==-refl key)
    | inr (place, found) ↦ rw (found, acquire, found)
  ]

  -- A second call for a key that is in a map with room finds the same place.
  pub acquire_present :
      (c : Cache T) (key : String) (place : ℕ)
      → find key c.entries ≡ some place
      → length c.entries < max_entries
      → acquire c key ≡ (c, place)
  unfolding acquire
  acquire_present c key place found room = ground (arith, bounded_room c.entries room)

  -- What has died stays dead.
  live_later :
      (x : Option (Entry T)) (now later : ℕ) → live x now ≡ none → now ≤ later → live x later ≡ none
  live_later none now later e h = refl
  live_later (some none) now later e h = refl
  live_later (some (some (v, expires_at))) now later e h = ground arith

  pub live_before :
      (v : T) (now expires_at : ℕ)
      → now < expires_at
      → live (some (some (v, expires_at))) now ≡ some v
  live_before v now expires_at h = ground arith

  rebuild_err :
      (c : Cache T) (place now done : ℕ) (e : String)
      → live (get_elem? c.store place) now ≡ none
      → rebuild c place now (err e) done ≡ (c, err e)
  unfolding rebuild
  rebuild_err c place now done e dead = rw (dead, rebuild)

  pub rebuild_builds :
      (c : Cache T) (place now done : ℕ) (built : Result T)
      → live (get_elem? c.store place) now ≡ none
      → (rebuild c place now built done).1 ≡ built
  unfolding rebuild
  rebuild_builds c place now done (ok v) dead = rw (dead, rebuild)
  rebuild_builds c place now done (err e) dead = rw (dead, rebuild)

  acquire_full :
      (c : Cache T) (key : String)
      → leb max_entries (length c.entries) ≡ true
      → acquire c key ≡ (
        record c { entries = (key, length c.store) ∷ []; store = c.store ++ none ∷ [] },
        length c.store,
      )
  unfolding acquire
  acquire_full c key full =
      let dropped : bounded c.entries ≡ [] = ground arith in rw (dropped, acquire) (rw dropped)

  -- The entry that a call finds after a call of the same key, when nothing was stored between.
  live-reacquire :
      (c : Cache T) (key : String) (later : ℕ)
      → live (get_elem? (acquire c key).0.store (acquire c key).1) later ≡ none
      → live
          (get_elem? (acquire (acquire c key).0 key).0.store (acquire (acquire c key).0 key).1)
          later
        ≡ none
  live-reacquire c key later dead =
      let d = (acquire c key).0 in
      elim (Bool-cases (leb max_entries (length d.entries))) [
        | inl full ↦ rw (acquire_full d key full, get_elem?-append_last d.store none)
        | inr room ↦
            rw (acquire_present d key (acquire c key).1 (find-acquire c key) (ground arith)) dead
      ]

  pub rebuild_ok :
      (c : Cache T) (place now done : ℕ) (v : T)
      → live (get_elem? c.store place) now ≡ none
      → rebuild c place now (ok v) done
        ≡ (record c { store = set c.store place (some (v, done + c.ttl)) }, ok v)
  unfolding rebuild
  rebuild_ok c place now done v e = rw (e, rebuild)

  pub rebuild-live :
      (c : Cache T) (place now done : ℕ) (built : Result T) (v : T)
      → live (get_elem? c.store place) now ≡ some v
      → rebuild c place now built done ≡ (c, ok v)
  unfolding rebuild
  rebuild-live c place now done built v e = rw (e, rebuild)

  pub get_enabled :
      (c : Cache T) (key : String) (now done : ℕ) (built : Result T)
      → 0 < c.ttl
      → get c key now built done ≡ rebuild (acquire c key).0 (acquire c key).1 now built done
  unfolding get
  get_enabled c key now done built h = ground arith

  get_off :
      (c : Cache T) (key : String) (now done : ℕ) (built : Result T)
      → leb c.ttl 0 ≡ true
      → get c key now built done ≡ (c, built)
  unfolding get
  get_off c key now done built h = rw h

  pub ttl-acquire : (c : Cache T) (key : String) → (acquire c key).0.ttl ≡ c.ttl
  unfolding acquire
  ttl-acquire c key = ground arith

  -- A call that finds no live value and fails leaves nothing behind that a later call would return:
  -- the next call for the key, no earlier, returns what its own `build` gives, also when it drops
  -- the map.
  pub get_error :
      (c : Cache T) (key e : String) (now done later done' : ℕ) (built : Result T)
      → live (get_elem? (acquire c key).0.store (acquire c key).1) now ≡ none
      → now ≤ later
      → ((get c key now (err e) done).1 ≡ err e)
        × ((get (get c key now (err e) done).0 key later built done').1 ≡ built)
  get_error c key e now done later done' built dead h = elim (Bool-cases (leb c.ttl 0)) [
    | inl off ↦
        let first : get c key now (err e) done ≡ (c, err e) = get_off c key now done (err e) off in
        (rw first, rw first (rw (get_off c key later done' built off)))
    | inr on ↦
        let c₁ = (acquire c key).0 in
        let enabled : 0 < c.ttl = ground arith in
        let first : get c key now (err e) done ≡ (c₁, err e) =
          get_enabled c key now done (err e) enabled
          ∙ rebuild_err c₁ (acquire c key).1 now done e dead in
        let dead' = live-reacquire c key later (live_later _ now later dead h) in
        (
          rw first,
          rw (first, get_enabled c₁ key later done' built (rw (ttl-acquire c key) enabled))
              (rebuild_builds (acquire c₁ key).0 (acquire c₁ key).1 later done' built dead'),
        )
  ]
