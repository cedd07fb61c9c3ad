-- ===== src/TtlCache/Sharing.antt =====
-- What callers share in any order of their locked parts.
use emly_go_api.Base.{
  ℕ, zero, suc, ◌+◌, ◌<◌, Option, none, some, List, [], ◌∷◌, ◌++◌, String, ◌≡◌, refl, sym, ap,
  subst, ◌∙◌, ◌⊎◌, inl, inr, length, get_elem?, set, ◌==◌, string_eq, arith, Bool-cases,
  length-append, length-set,
}
use text.Mathlib.TextEquality.{eq_iff}
use mathlib.Core.List.{Memᴰ}
use emly_go_api.TtlCache.{Cache, Entry, Result, ok, err, find, bounded, acquire, live, rebuild}
use emly_go_api.TtlCache.Memo.{find-bounded, rebuild_builds, rebuild-live}
use emly_go_api.TtlCache.Interleaving.{
  Shared, start, enter, finish, Reach, started, entered, finished,
}

pair_eq : {a b : String} {p q : ℕ} → a ≡ b → p ≡ q → ◌≡◌ {A = String × ℕ} (a, p) (b, q)
pair_eq e f = λ i. (e i, f i)

mem_cons_cases :
    (k key : String) (p place : ℕ) (l : List (String × ℕ))
    → Memᴰ (k, p) ((key, place) ∷ l)
    → ((k ≡ key) × (p ≡ place)) ⊎ Memᴰ (k, p) l
mem_cons_cases k key p place l (Memᴰ.head e) = inl (ap (λ t. t.0) e, ap (λ t. t.1) e)
mem_cons_cases k key p place l (Memᴰ.tail m) = inr m

-- A further caller of a key that holds the place already.
again-owned :
    (callers : List (String × ℕ)) (key : String) (place : ℕ)
    → ((k j : String) (p : ℕ) → Memᴰ (k, p) callers → Memᴰ (j, p) callers → k ≡ j)
    → Memᴰ (key, place) callers
    → (k : String) (p : ℕ) → Memᴰ (k, p) ((key, place) ∷ callers)
    → Memᴰ (k, p) callers
again-owned callers key place owned m k p (Memᴰ.head e) = subst (λ t. Memᴰ t callers) (sym e) m
again-owned callers key place owned m k p (Memᴰ.tail n) = n

module _ {T : Type 0} where
  record Inv (s : Shared T) : Type 0 where
    placed : (key : String) (place : ℕ) → Memᴰ (key, place) s.callers → place < length s.cache.store
    owned :
        (key other : String) (place : ℕ)
        → Memᴰ (key, place) s.callers
        → Memᴰ (other, place) s.callers
        → key ≡ other
    mapped :
        (key : String) (place : ℕ)
        → find key s.cache.entries ≡ some place
        → Memᴰ (key, place) s.callers
    logged :
        (place : ℕ) (v : T) (expires_at : ℕ)
        → get_elem? s.cache.store place ≡ some (some (v, expires_at))
        → (key : String) × Memᴰ (key, place) s.callers × Memᴰ (key, v, expires_at) s.log

  start-Inv : (ttl : ℕ) → Inv (start ttl)
  start-Inv ttl = record {
    placed = λ key place m. elim m [ ];
    owned = λ key other place m. elim m [ ];
    mapped = λ key place e. cc;
    logged = λ place v x e. cc;
  }

  -- The place that `acquire` gives is a new one, or the one that the map has.
  data Acquired (c : Cache T) (key : String) : Cache T × ℕ → Type 0 where
    old :
        (place : ℕ) (m : List (String × ℕ))
        → find key c.entries ≡ some place
        → ((k : String) (p : ℕ) → find k m ≡ some p → find k c.entries ≡ some p)
        → Acquired c key (record c { entries = m }, place)
    fresh :
        (m : List (String × ℕ))
        → ((k : String) (p : ℕ) → find k m ≡ some p → find k c.entries ≡ some p)
        → Acquired c key (
          record c { entries = (key, length c.store) ∷ m; store = c.store ++ none ∷ [] },
          length c.store,
        )

  acquire-Acquired : (c : Cache T) (key : String) → Acquired c key (acquire c key)
  unfolding acquire
  acquire-Acquired c key = go (find key (bounded c.entries)) refl
    where
      go : (o : Option ℕ) → find key (bounded c.entries) ≡ o → Acquired c key (acquire c key)
      go (some place) e =
          rw (e, acquire)
            (old place (bounded c.entries) (find-bounded c.entries key place e)
              (λ k p h. find-bounded c.entries k p h))
      go none e =
          rw (e, acquire) (fresh (bounded c.entries) (λ k p h. find-bounded c.entries k p h))

  get_elem?-append_none :
      (xs : List (Entry T)) (i : ℕ) (x : T × ℕ)
      → get_elem? (xs ++ none ∷ []) i ≡ some (some x)
      → get_elem? xs i ≡ some (some x)
  get_elem?-append_none [] zero x e = cc
  get_elem?-append_none [] (suc i) x e = e
  get_elem?-append_none (y ∷ xs) zero x e = e
  get_elem?-append_none (y ∷ xs) (suc i) x e = get_elem?-append_none xs i x e

  get_elem?-set-some :
      (xs : List (Entry T)) (i j : ℕ) (w y : Entry T)
      → get_elem? (set xs i w) j ≡ some y
      → ((i ≡ j) × (w ≡ y)) ⊎ (get_elem? xs j ≡ some y)
  get_elem?-set-some [] i j w y e = inr e
  get_elem?-set-some (x ∷ xs) zero zero w y e = inl (refl, cc)
  get_elem?-set-some (x ∷ xs) zero (suc j) w y e = inr e
  get_elem?-set-some (x ∷ xs) (suc i) zero w y e = inr e
  get_elem?-set-some (x ∷ xs) (suc i) (suc j) w y e = elim (get_elem?-set-some xs i j w y e) [
    | inl (same, is_y) ↦ inl (cc same, is_y)
    | inr other ↦ inr other
  ]

  enter-Inv_at :
      (s : Shared T) (key : String) (r : Cache T × ℕ)
      → Acquired s.cache key r
      → Inv s
      → Inv (record s { cache = r.0; callers = (key, r.1) ∷ s.callers })
  enter-Inv_at s key r (old place m e same) h =
      let held = h.mapped key place e in
      let back = again-owned s.callers key place h.owned held in
      record {
        placed = λ k p n. h.placed k p (back k p n);
        owned = λ k j p n o. h.owned k j p (back k p n) (back j p o);
        mapped = λ k p f. Memᴰ.tail (h.mapped k p (same k p f));
        logged = λ p v x f. let (k, n, l) = h.logged p v x f in (k, Memᴰ.tail n, l);
      }
  enter-Inv_at s key r (fresh m same) h =
      let new_place = length s.cache.store in
      let longer = length-append {0} s.cache.store (none ∷ []) in
      record {
        placed = λ k p n. elim (mem_cons_cases k key p new_place s.callers n) [
          | inl (same_key, same_place) ↦ omega (arith, longer)
          | inr before ↦ omega (arith, longer, h.placed k p before)
        ];
        owned = λ k j p n o. elim (mem_cons_cases k key p new_place s.callers n) [
          | inl (k_key, p_new) ↦ elim (mem_cons_cases j key p new_place s.callers o) [
            | inl (j_key, _) ↦ k_key ∙ sym j_key
            | inr before ↦ absurd (omega (arith, h.placed j p before))
          ]
          | inr before ↦ elim (mem_cons_cases j key p new_place s.callers o) [
            | inl (j_key, p_new) ↦ absurd (omega (arith, h.placed k p before))
            | inr before' ↦ h.owned k j p before before'
          ]
        ];
        mapped = λ k p f. elim (Bool-cases (key == k)) [
          | inl hit ↦
              let same_key : key ≡ k = (eq_iff key k).0 hit in
              let found : some new_place ≡ some p = rw hit at f in
              let same_place : new_place ≡ p = cc in
              Memᴰ.head (pair_eq (sym same_key) (sym same_place))
          | inr miss ↦ Memᴰ.tail (h.mapped k p (same k p (rw miss at f)))
        ];
        logged = λ p v x f.
            let (k, n, l) = h.logged p v x (get_elem?-append_none s.cache.store p (v, x) f) in
            (k, Memᴰ.tail n, l);
      }

  enter-Inv : (s : Shared T) (key : String) → Inv s → Inv (enter s key)
  enter-Inv s key h = enter-Inv_at s key (acquire s.cache key) (acquire-Acquired s.cache key) h

  finish-Inv_at :
      (s : Shared T) (key : String) (place expires_at : ℕ) (v : T)
      → Memᴰ (key, place) s.callers
      → Inv s
      → Inv (record s {
        cache = record (s.cache) { store = set s.cache.store place (some (v, expires_at)) };
        log = (key, v, expires_at) ∷ s.log;
      })
  finish-Inv_at s key place expires_at v m h = record {
    placed = λ k p n.
        omega (arith, h.placed k p n, length-set {0} s.cache.store place (some (v, expires_at)));
    owned = h.owned;
    mapped = h.mapped;
    logged = λ p w x f.
        elim (get_elem?-set-some s.cache.store place p (some (v, expires_at)) (some (w, x)) f) [
          | inl (same, is) ↦
              let is_v : v ≡ w = cc in
              let is_x : expires_at ≡ x = cc in
              (
                key,
                subst (λ q. Memᴰ (key, q) s.callers) same m,
                Memᴰ.head (λ i. (key, sym is_v i, sym is_x i)),
              )
          | inr before ↦ let (k, n, l) = h.logged p w x before in (k, n, Memᴰ.tail l)
        ];
  }

  finish-Inv :
      (s : Shared T) (key : String) (place now : ℕ) (built : Result T) (done : ℕ)
      → Memᴰ (key, place) s.callers
      → Inv s
      → Inv (finish s key place now built done)
  unfolding rebuild
  finish-Inv s key place now built done m h =
      go (live (get_elem? s.cache.store place) now) built refl
    where
      go :
          (o : Option T) (b : Result T)
          → live (get_elem? s.cache.store place) now ≡ o
          → Inv (finish s key place now b done)
      go (some v) b e = rw (e, rebuild) h
      go none (err x) e = rw (e, rebuild) h
      go none (ok v) e = rw (e, rebuild) (finish-Inv_at s key place (done + s.cache.ttl) v m h)

  Reach-Inv : (ttl : ℕ) (s : Shared T) → Reach ttl s → Inv s
  Reach-Inv ttl s started = start-Inv ttl
  Reach-Inv ttl s (entered {s = before} key r) = enter-Inv before key (Reach-Inv ttl before r)
  Reach-Inv ttl s (finished {s = before} key place now built done m r) =
      finish-Inv before key place now built done m (Reach-Inv ttl before r)

  live-some :
      (x : Option (Entry T)) (now : ℕ) (v : T)
      → live x now ≡ some v
      → (expires_at : ℕ) × (x ≡ some (some (v, expires_at))) × (now < expires_at)
  live-some none now v e = cc
  live-some (some none) now v e = cc
  live-some (some (some (w, expires_at))) now v e = (expires_at, ground arith, ground arith)

  -- Whatever calls ran before, in any order of their two locked parts and with the map dropped any
  -- number of times: a value that a call returns is the result of its own `build`, or was stored
  -- for the same key, and its time to live is not over.
  pub rebuild_own_key :
      (ttl : ℕ) (s : Shared T) (key : String) (place now : ℕ) (built : Result T) (done : ℕ) (v : T)
      → Reach ttl s
      → Memᴰ (key, place) s.callers
      → (rebuild s.cache place now built done).1 ≡ ok v
      → (built ≡ ok v) ⊎ ((expires_at : ℕ) × Memᴰ (key, v, expires_at) s.log × (now < expires_at))
  unfolding rebuild
  rebuild_own_key ttl s key place now built done v r m e =
      go (live (get_elem? s.cache.store place) now) refl
    where
      h : Inv s
      h = Reach-Inv ttl s r

      go :
          (o : Option T)
          → live (get_elem? s.cache.store place) now ≡ o
          → (built ≡ ok v)
            ⊎ ((expires_at : ℕ) × Memᴰ (key, v, expires_at) s.log × (now < expires_at))
      go none dead = inl (sym (rebuild_builds s.cache place now done built dead) ∙ e)
      go (some w) alive =
          let result : ok w ≡ ok v =
            sym (ap (λ t. t.1) (rebuild-live s.cache place now done built w alive)) ∙ e in
          let is_v : w ≡ v = cc in
          let (expires_at, held, before) =
            live-some (get_elem? s.cache.store place) now v (rw is_v at alive) in
          let (other, n, l) = h.logged place v expires_at held in
          inr (
            expires_at,
            subst (λ k. Memᴰ (k, v, expires_at) s.log) (h.owned other key place n m) l,
            before,
          )
