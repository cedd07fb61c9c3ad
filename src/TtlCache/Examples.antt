-- ===== src/TtlCache/Examples.antt =====
-- One key, built at 10 with a life of 30, and asked for again at 20.
use emly_go_api.Base.{ℕ, ◌≤◌, ◌<◌, ◌≡◌, refl, ◌⊎◌, arith, length, List, [], ◌∷◌}
use mathlib.Core.List.{Memᴰ}
use emly_go_api.TtlCache.{Cache, Result, ok, err, new, acquire, rebuild, get}
use emly_go_api.TtlCache.Memo.{acquire_bound, get_error}
use emly_go_api.TtlCache.Repeats.{Call, run, IsLaidOut, get_memoizes}
use emly_go_api.TtlCache.Interleaving.{Shared, start, enter, finish, started, entered, finished}
use emly_go_api.TtlCache.Sharing.{rebuild_own_key}

abbrev cold : Cache ℕ
cold = new 30

cold-IsLaidOut : IsLaidOut cold
cold-IsLaidOut = record { placed = λ k p f. cc; apart = λ k j p f g. cc }

hit : (get (get cold "a" 10 (ok 7) 11).0 "a" 20 (ok 8) 21).1 ≡ ok 7
unfolding get
hit = refl

expired : (get (get cold "a" 10 (ok 7) 11).0 "a" 41 (ok 8) 42).1 ≡ ok 8
unfolding get
expired = refl

acquire_bound_example : length (acquire cold "a").0.entries ≤ 512
acquire_bound_example = acquire_bound cold "a"

-- Between the two calls for "a": one for "b", and one for "a".
abbrev between : List (Call ℕ)
between =
    record { key = "b"; now = 12; built = ok 9; done = 13 }
    ∷ record { key = "a"; now = 15; built = ok 8; done = 16 }
    ∷ []

abbrev warm : Cache ℕ
warm = (get cold "a" 10 (ok 7) 11).0

get_memoizes_example : get (run between warm) "a" 20 (err "down") 21 ≡ (run between warm, ok 7)
unfolding acquire
get_memoizes_example =
    get_memoizes cold "a" 10 11 20 21 7 (err "down") between (omega arith) cold-IsLaidOut refl
      (omega arith) ((λ e. omega arith), ((λ e. omega arith), tt)) (omega arith)

get_error_example :
    ((get cold "a" 10 (err "down") 11).1 ≡ err "down")
    × ((get (get cold "a" 10 (err "down") 11).0 "a" 20 (ok 8) 21).1 ≡ ok 8)
unfolding acquire
get_error_example = get_error cold "a" "down" 10 11 20 21 (ok 8) refl (omega arith)

abbrev one_caller : Shared ℕ
one_caller = enter (start 30) "a"

abbrev filled : Shared ℕ
filled = finish one_caller "a" 0 10 (ok 7) 11

rebuild_own_key_example :
    (◌≡◌ {A = Result ℕ} (err "down") (ok 7))
    ⊎ ((expires_at : ℕ) × Memᴰ ("a", 7, expires_at) filled.log × (20 < expires_at))
unfolding acquire rebuild
rebuild_own_key_example =
    rebuild_own_key 30 filled "a" 0 20 (err "down") 21 7
      (finished "a" 0 10 (ok 7) 11 (Memᴰ.head refl) (entered "a" started)) (Memᴰ.head refl) refl
