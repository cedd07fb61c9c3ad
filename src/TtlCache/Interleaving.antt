-- ===== src/TtlCache/Interleaving.antt =====
-- Any number of callers of internal/ttlcache/ttlcache.go, with their two locked parts in any order.
use emly_go_api.Base.{ℕ, ◌+◌, Option, none, some, List, [], ◌∷◌, ◌++◌, String, get_elem?, string_eq}
use mathlib.Core.List.{Memᴰ}
use emly_go_api.TtlCache.{Cache, Result, ok, err, new, acquire, live, rebuild}

-- The cache, the key and place of every call that has passed the first lock, and every value that
-- was stored: its key, itself and the end of its life.
pub record Shared (T : Type 0) : Type 0 where
  pub cache : Cache T
  pub callers : List (String × ℕ)
  pub log : List (String × T × ℕ)

module _ {T : Type 0} where
  abbrev pub start : ℕ → Shared T
  start ttl = record { cache = new ttl; callers = []; log = [] }

  -- A call passes the first lock.
  abbrev pub enter : Shared T → String → Shared T
  enter s key = record s {
    cache = (acquire s.cache key).0;
    callers = (key, (acquire s.cache key).1) ∷ s.callers;
  }

  -- What a rebuild stores, if it stores anything.
  abbrev pub stored : Option T → String → ℕ → Result T → List (String × T × ℕ)
  stored (some v) key expires_at built = []
  stored none key expires_at (err e) = []
  stored none key expires_at (ok v) = (key, v, expires_at) ∷ []

  -- A caller passes the second lock.
  abbrev pub finish : Shared T → String → ℕ → ℕ → Result T → ℕ → Shared T
  finish s key place now built done = record s {
    cache = (rebuild s.cache place now built done).0;
    log = stored (live (get_elem? s.cache.store place) now) key (done + s.cache.ttl) built ++ s.log;
  }

  pub data Reach (ttl : ℕ) : Shared T → Type 0 where
    started : Reach ttl (start ttl)
    entered : {s : Shared T} (key : String) → Reach ttl s → Reach ttl (enter s key)
    finished :
        {s : Shared T} (key : String) (place now : ℕ) (built : Result T) (done : ℕ)
        → Memᴰ (key, place) s.callers
        → Reach ttl s
        → Reach ttl (finish s key place now built done)
