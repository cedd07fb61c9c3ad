-- ===== src/Middleware/BanList/Scan.antt =====
-- The snapshot's maps as scans of the table.
use emly_go_api.Base.{
  Bool, true, false, Option, none, some, List, [], ◌∷◌, String, ◌==◌, string_eq, ◌≡◌, ◌≢◌, refl,
  ◌⊎◌, inl, inr, All, arith, not, ◌&&◌, if◌then◌else◌, Bool-cases,
}
use text.Mathlib.TextEquality.{eq_iff}
use emly_go_api.Middleware.BanList.{
  Ban, BanList, new, ban_type_ip, ban_type_hwid, ban_type_hostname, add_row, add_rows, reload,
  match, or_else,
}
use mathlib.Core.List.{Memᴰ}

pub or_else-some :
    (x y : Option Ban) (ban : Ban) → or_else x y ≡ some ban → (x ≡ some ban) ⊎ (y ≡ some ban)
or_else-some none y ban e = inr e
or_else-some (some a) y ban e = inl e

pub or_else-none : (x y : Option Ban) → or_else x y ≡ none → (x ≡ none) × (y ≡ none)
or_else-none none y e = (refl, e)
or_else-none (some a) y e = cc

none≢some : {ban : Ban} → none ≢ some ban
none≢some e = cc

pub contradicts : {sent : String} {t : Bool} → (sent ≡ "") ⊎ (t ≡ false) → sent ≢ "" → t ≡ true → ⊥
contradicts (inl e) given hit = given e
contradicts (inr miss) given hit = cc

pub first_of_All :
    {P : Type 0} (p : Ban → Bool) (row : Ban) (rows : List Ban)
    → P ⊎ All (λ r. p r ≡ false) (row ∷ rows)
    → P ⊎ (p row ≡ false)
first_of_All p row rows (inl e) = inl e
first_of_All p row rows (inr (q, qs)) = inr q

pub rest_of_All :
    {P : Type 0} (p : Ban → Bool) (row : Ban) (rows : List Ban)
    → P ⊎ All (λ r. p r ≡ false) (row ∷ rows)
    → P ⊎ All (λ r. p r ≡ false) rows
rest_of_All p row rows (inl e) = inl e
rest_of_All p row rows (inr (q, qs)) = inr qs

-- The row of the list that a map ends up with: the last one that passes the test.
abbrev pub last_such : (Ban → Bool) → List Ban → Option Ban → Option Ban
last_such p [] found = found
last_such p (row ∷ rows) found = last_such p rows (if p row then some row else found)

pub last_such_sound :
    (p : Ban → Bool) (rows : List Ban) (found : Option Ban) (ban : Ban)
    → last_such p rows found ≡ some ban
    → (Memᴰ ban rows × (p ban ≡ true)) ⊎ (found ≡ some ban)
last_such_sound p [] found ban e = inr e
last_such_sound p (row ∷ rows) found ban e =
    elim (last_such_sound p rows (if p row then some row else found) ban e) [
      | inl (m, q) ↦ inl (Memᴰ.tail m, q)
      | inr here ↦ elim (Bool-cases (p row)) [
        | inl yes_row ↦
            let same : some row ≡ some ban = rw yes_row at here in
            let is_ban : ban ≡ row = cc in inl (Memᴰ.head is_ban, rw is_ban yes_row)
        | inr no_row ↦ inr (rw no_row at here)
      ]
    ]

last_such-some : (p : Ban → Bool) (rows : List Ban) (row : Ban) → last_such p rows (some row) ≢ none
last_such-some p [] row e = cc
last_such-some p (r ∷ rows) row e = elim (Bool-cases (p r)) [
  | inl hit ↦ last_such-some p rows r (rw hit at e)
  | inr miss ↦ last_such-some p rows row (rw miss at e)
]

pub last_such_complete :
    (p : Ban → Bool) (rows : List Ban) (found : Option Ban)
    → last_such p rows found ≡ none
    → All (λ row. p row ≡ false) rows
last_such_complete p [] found e = tt
last_such_complete p (row ∷ rows) found e = elim (Bool-cases (p row)) [
  | inl hit ↦ absurd (last_such-some p rows row (rw hit at e))
  | inr miss ↦ (miss, last_such_complete p rows found (rw miss at e))
]

abbrev pub is_ip : String → Ban → Bool
is_ip k row = row.ban_type == ban_type_ip && row.value == k

abbrev pub is_hwid : String → Ban → Bool
is_hwid k row = row.ban_type == ban_type_hwid && row.value == k

-- The scan of the table for an identifier, unless it was not sent.
abbrev pub scan : (Ban → Bool) → String → List Ban → Option Ban
scan p sent rows = if not (sent == "") then last_such p rows none else none

pub scan_sound :
    (p : Ban → Bool) (sent : String) (rows : List Ban) (ban : Ban)
    → scan p sent rows ≡ some ban
    → (sent ≢ "") × Memᴰ ban rows × (p ban ≡ true)
scan_sound p sent rows ban e = elim (Bool-cases (sent == "")) [
  | inl nothing ↦ absurd (none≢some (rw nothing at e))
  | inr given ↦ elim (last_such_sound p rows none ban (rw given at e)) [
    | inl (m, q) ↦ ((λ same. cc (given, (eq_iff sent "").1 same)), m, q)
    | inr other ↦ absurd (none≢some other)
  ]
]

pub scan_complete :
    (p : Ban → Bool) (sent : String) (rows : List Ban)
    → scan p sent rows ≡ none
    → (sent ≡ "") ⊎ All (λ row. p row ≡ false) rows
scan_complete p sent rows e = elim (Bool-cases (sent == "")) [
  | inl nothing ↦ inl ((eq_iff sent "").0 nothing)
  | inr given ↦ inr (last_such_complete p rows none (rw given at e))
]

module _ (to_lower : String → String) where
  abbrev pub is_hostname : String → Ban → Bool
  is_hostname k row = row.ban_type == ban_type_hostname && to_lower row.value == k

  add_row-maps :
      (b : BanList) (row : Ban) (k : String)
      → ((add_row to_lower b row).ips k ≡ (if is_ip k row then some row else b.ips k))
        × ((add_row to_lower b row).hwids k ≡ (if is_hwid k row then some row else b.hwids k))
        × ((add_row to_lower b row).hostnames k
            ≡ (if is_hostname k row then some row else b.hostnames k))
  unfolding add_row
  add_row-maps b row k = (
    ground (
      arith,
      eq_iff row.ban_type "ip",
      eq_iff row.ban_type "hwid",
      eq_iff row.ban_type "hostname",
    ),
    ground (
      arith,
      eq_iff row.ban_type "ip",
      eq_iff row.ban_type "hwid",
      eq_iff row.ban_type "hostname",
      eq_iff "ip" "hwid",
    ),
    ground (
      arith,
      eq_iff row.ban_type "ip",
      eq_iff row.ban_type "hwid",
      eq_iff row.ban_type "hostname",
      eq_iff "ip" "hostname",
      eq_iff "hwid" "hostname",
    ),
  )

  add_rows-maps :
      (b : BanList) (rows : List Ban) (k : String)
      → ((add_rows to_lower b rows).ips k ≡ last_such (is_ip k) rows (b.ips k))
        × ((add_rows to_lower b rows).hwids k ≡ last_such (is_hwid k) rows (b.hwids k))
        × ((add_rows to_lower b rows).hostnames k ≡ last_such (is_hostname k) rows (b.hostnames k))
  unfolding add_rows
  add_rows-maps b [] k = (refl, refl, refl)
  add_rows-maps b (row ∷ rows) k =
      let (i, w, n) = add_row-maps b row k in
      let (i', w', n') = add_rows-maps (add_row to_lower b row) rows k in
      (rw i at i', rw w at w', rw n at n')

  -- `match` after a reload, as three scans of the table in order.
  pub match-reload :
      (b : BanList) (rows : List Ban) (ip hwid hostname : String)
      → match to_lower (reload to_lower (some rows) b) ip hwid hostname
        ≡ or_else (scan (is_ip ip) ip rows) (
            or_else
              (scan (is_hwid hwid) hwid rows)
              (scan (is_hostname (to_lower hostname)) hostname rows))
  unfolding match reload
  match-reload b rows ip hwid hostname = rw (
    (add_rows-maps (new b.admin_key) rows ip).0,
    (add_rows-maps (new b.admin_key) rows hwid).1,
    (add_rows-maps (new b.admin_key) rows (to_lower hostname)).2,
  )
