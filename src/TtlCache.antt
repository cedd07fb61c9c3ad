-- ===== src/TtlCache.antt =====
-- internal/ttlcache/ttlcache.go: a memoizer with a short time to live.
-- The entries are pointers in Go: a caller may still hold an entry that the map has dropped. So
-- they live in a store of their own, and the map takes a key to a place in the store. `Get` locks
-- twice, and other calls run between: `acquire` is its part under the cache's lock, `rebuild`
-- its part under the entry's lock.
pub mod Memo
pub mod Repeats
pub mod Interleaving
pub mod Sharing
mod Examples
use emly_go_api.Base.{
  ℕ, ◌+◌, Bool, true, false, Option, none, some, List, [], ◌∷◌, ◌++◌, String, length, get_elem?,
  set, ltb, leb, ◌==◌, string_eq, if◌then◌else◌,
}

abbrev pub max_entries : ℕ
max_entries = 512

-- entry: the value, and the end of its life. A zero `expiresAt` is `none`, and then the value is
-- still the zero value, which nobody reads.
abbrev pub Entry {ℓ} : Type ℓ → Type ℓ
Entry T = Option (T × ℕ)

pub record Cache {ℓ} (T : Type ℓ) : Type ℓ where
  -- The time to live in nanoseconds; a duration below zero counts as 0.
  pub ttl : ℕ
  -- The map, with one pair for each key.
  pub entries : List (String × ℕ)
  pub store : List (Entry T)

pub data Result {ℓ} (T : Type ℓ) : Type ℓ where
  ok : T → Result T
  err : String → Result T

abbrev pub find : String → List (String × ℕ) → Option ℕ
find key [] = none
find key ((k, place) ∷ m) = if k == key then some place else find key m

-- `if len(c.entries) >= maxEntries { c.entries = make(…) }`
abbrev pub bounded : List (String × ℕ) → List (String × ℕ)
bounded m = if leb max_entries (length m) then [] else m

module _ {ℓ} {T : Type ℓ} where
  -- New
  abbrev pub new : ℕ → Cache T
  new ttl = record { ttl = ttl; entries = []; store = [] }

  -- Get between c.mu.Lock() and c.mu.Unlock(): the place of the entry of the key.
  unfoldable pub acquire : Cache T → String → Cache T × ℕ
  acquire c key =
      let m = bounded c.entries in
      elim (find key m) [
        | some place ↦ (record c { entries = m }, place)
        | none ↦ (
          record c { entries = (key, length c.store) ∷ m; store = c.store ++ none ∷ [] },
          length c.store,
        )
      ]

  -- The stored value that still lives at the moment `now`.
  abbrev pub live : Option (Entry T) → ℕ → Option T
  live (some (some (value, expires_at))) now = if ltb now expires_at then some value else none
  live _ now = none

  -- Get under e.mu, on the entry at the place. `now` is the moment of the test, `built` what
  -- `build` returns if it is called, and `done` the moment after it.
  unfoldable pub rebuild : Cache T → ℕ → ℕ → Result T → ℕ → Cache T × Result T
  rebuild c place now built done = elim (live (get_elem? c.store place) now) [
    | some value ↦ (c, ok value)
    | none ↦ elim built [
      | err e ↦ (c, err e)
      | ok value ↦ (record c { store = set c.store place (some (value, done + c.ttl)) }, ok value)
    ]
  ]

  -- Get with nothing running between its two locks.
  unfoldable pub get : Cache T → String → ℕ → Result T → ℕ → Cache T × Result T
  unfolding acquire rebuild
  get c key now built done =
      if leb c.ttl 0
      then (c, built)
      else (let (c', place) = acquire c key in rebuild c' place now built done)
