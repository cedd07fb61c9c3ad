-- ===== src/Middleware/BanList/Matching.antt =====
-- internal/middleware/ban.go: what a request meets after a reload of the snapshot.
use emly_go_api.Base.{
  true, false, none, some, List, [], ◌∷◌, String, ◌==◌, string_eq, ◌≡◌, ◌≢◌, refl, ◌∙◌, ◌⊎◌, inl,
  inr, All, arith, not, ◌&&◌,
}
use text.Mathlib.TextEquality.{eq_iff}
use emly_go_api.Middleware.Request.{Request}
use emly_go_api.Middleware.ClientAddress.{client_ip}
use emly_go_api.Middleware.BanList.{
  Ban, BanList, new, ban_type_ip, ban_type_hwid, ban_type_hostname, add_row, add_rows, reload,
  match, handler, served, forbidden,
}
use mathlib.Core.List.{Memᴰ}
use emly_go_api.Middleware.BanList.Scan.{
  is_ip, is_hwid, is_hostname, scan_sound, scan_complete, match-reload, or_else-some, or_else-none,
  contradicts, first_of_All, rest_of_All,
}

-- A request with the admin key.
abbrev pub IsAdmin : BanList → Request → Type 0
IsAdmin b r = (not (b.admin_key == "") && r.x_admin_key == b.admin_key) ≡ true

module _ (to_lower : String → String) where
  -- The ban is about these identifiers. An identifier that is "" was not sent.
  abbrev pub Blocks : String → String → String → Ban → Type 0
  Blocks ip hwid hostname ban =
      ((ip ≢ "") × (ban.ban_type ≡ ban_type_ip) × (ban.value ≡ ip))
      ⊎ ((hwid ≢ "") × (ban.ban_type ≡ ban_type_hwid) × (ban.value ≡ hwid))
      ⊎ ((hostname ≢ "")
          × (ban.ban_type ≡ ban_type_hostname)
          × (to_lower ban.value ≡ to_lower hostname))

  -- A ban that `match` returns after a reload is a row of the table, and is about the request.
  match_sound :
      (b : BanList) (rows : List Ban) (ip hwid hostname : String) (ban : Ban)
      → match to_lower (reload to_lower (some rows) b) ip hwid hostname ≡ some ban
      → Memᴰ ban rows × Blocks ip hwid hostname ban
  match_sound b rows ip hwid hostname ban e =
      elim (or_else-some _ _ ban (rw (match-reload to_lower b rows ip hwid hostname) at e)) [
        | inl first ↦
            let (sent, m, q) = scan_sound (is_ip ip) ip rows ban first in
            (
              m,
              inl (
                sent,
                ground (arith, eq_iff ban.ban_type "ip"),
                ground (arith, eq_iff ban.value ip),
              ),
            )
        | inr later ↦ elim (or_else-some _ _ ban later) [
          | inl second ↦
              let (sent, m, q) = scan_sound (is_hwid hwid) hwid rows ban second in
              (
                m,
                inr (
                    inl (
                      sent,
                      ground (arith, eq_iff ban.ban_type "hwid"),
                      ground (arith, eq_iff ban.value hwid),
                    )),
              )
          | inr third ↦
              let (sent, m, q) =
                scan_sound (is_hostname to_lower (to_lower hostname)) hostname rows ban third in
              (
                m,
                inr (
                    inr (
                      sent,
                      ground (arith, eq_iff ban.ban_type "hostname"),
                      ground (arith, eq_iff (to_lower ban.value) (to_lower hostname)),
                    )),
              )
        ]
      ]

  not-Blocks :
      (ip hwid hostname : String) (row : Ban)
      → (ip ≡ "") ⊎ (is_ip ip row ≡ false)
      → (hwid ≡ "") ⊎ (is_hwid hwid row ≡ false)
      → (hostname ≡ "") ⊎ (is_hostname to_lower (to_lower hostname) row ≡ false)
      → ¬ Blocks ip hwid hostname row
  not-Blocks ip hwid hostname row x y z (inl (sent, t, v)) =
      contradicts x sent (ground (arith, eq_iff row.ban_type "ip", eq_iff row.value ip))
  not-Blocks ip hwid hostname row x y z (inr (inl (sent, t, v))) =
      contradicts y sent (ground (arith, eq_iff row.ban_type "hwid", eq_iff row.value hwid))
  not-Blocks ip hwid hostname row x y z (inr (inr (sent, t, v))) = contradicts z sent (
      ground
        (arith, eq_iff row.ban_type "hostname", eq_iff (to_lower row.value) (to_lower hostname)))

  none-Blocks :
      (ip hwid hostname : String) (rows : List Ban)
      → (ip ≡ "") ⊎ All (λ row. is_ip ip row ≡ false) rows
      → (hwid ≡ "") ⊎ All (λ row. is_hwid hwid row ≡ false) rows
      → (hostname ≡ "") ⊎ All (λ row. is_hostname to_lower (to_lower hostname) row ≡ false) rows
      → All (λ row. ¬ Blocks ip hwid hostname row) rows
  none-Blocks ip hwid hostname [] x y z = tt
  none-Blocks ip hwid hostname (row ∷ rs) x y z = (
    not-Blocks ip hwid hostname row (first_of_All (is_ip ip) row rs x)
        (first_of_All (is_hwid hwid) row rs y)
        (first_of_All (is_hostname to_lower (to_lower hostname)) row rs z),
    none-Blocks ip hwid hostname rs (rest_of_All (is_ip ip) row rs x)
        (rest_of_All (is_hwid hwid) row rs y)
        (rest_of_All (is_hostname to_lower (to_lower hostname)) row rs z),
  )

  -- If `match` returns none after a reload, no row of the table is about the request.
  match_complete :
      (b : BanList) (rows : List Ban) (ip hwid hostname : String)
      → match to_lower (reload to_lower (some rows) b) ip hwid hostname ≡ none
      → All (λ row. ¬ Blocks ip hwid hostname row) rows
  match_complete b rows ip hwid hostname e =
      let (first, later) =
        or_else-none _ _ (rw (match-reload to_lower b rows ip hwid hostname) at e) in
      let (second, third) = or_else-none _ _ later in
      none-Blocks ip hwid hostname rows (scan_complete (is_ip ip) ip rows first)
        (scan_complete (is_hwid hwid) hwid rows second)
        (scan_complete (is_hostname to_lower (to_lower hostname)) hostname rows third)

  admin_key-add_row : (b : BanList) (row : Ban) → (add_row to_lower b row).admin_key ≡ b.admin_key
  unfolding add_row
  admin_key-add_row b row = ground arith

  admin_key-add_rows :
      (b : BanList) (rows : List Ban) → (add_rows to_lower b rows).admin_key ≡ b.admin_key
  unfolding add_rows
  admin_key-add_rows b [] = refl
  admin_key-add_rows b (row ∷ rows) =
      admin_key-add_rows (add_row to_lower b row) rows ∙ admin_key-add_row b row

  pub admin_key-reload :
      (b : BanList) (rows : List Ban) → (reload to_lower (some rows) b).admin_key ≡ b.admin_key
  unfolding reload
  admin_key-reload b rows = admin_key-add_rows (new b.admin_key) rows

  -- What the handler's answer says of the snapshot.
  handler-answer :
      (b : BanList) (r : Request)
      → ((ban : Ban)
          → handler to_lower b r ≡ forbidden ban
          → (match to_lower b (client_ip r) r.x_emly_hwid r.x_emly_hostname ≡ some ban)
            × (¬ IsAdmin b r))
        × (handler to_lower b r ≡ served
            → IsAdmin b r ⊎ (match to_lower b (client_ip r) r.x_emly_hwid r.x_emly_hostname ≡ none))
  unfolding handler
  handler-answer b r = ((λ ban e. (ground arith, λ admin. ground arith)), λ e. ground arith)

  -- After a reload the handler answers 403 exactly to the requests without the admin key that some
  -- row of the table is about, and names such a row.
  pub handler-reload :
      (b : BanList) (rows : List Ban) (r : Request)
      → ((ban : Ban)
          → handler to_lower (reload to_lower (some rows) b) r ≡ forbidden ban
          → Memᴰ ban rows
            × Blocks (client_ip r) r.x_emly_hwid r.x_emly_hostname ban
            × (¬ IsAdmin b r))
        × (handler to_lower (reload to_lower (some rows) b) r ≡ served
            → IsAdmin b r
              ⊎ All (λ row. ¬ Blocks (client_ip r) r.x_emly_hwid r.x_emly_hostname row) rows)
  handler-reload b rows r =
      let b' = reload to_lower (some rows) b in
      let (stops, passes) = handler-answer b' r in
      let same = admin_key-reload b rows in
      (
        λ ban e.
            let (found, other) = stops ban e in
            let (m, blocks) =
              match_sound b rows (client_ip r) r.x_emly_hwid r.x_emly_hostname ban found in
            (m, blocks, λ admin. other (rw same admin)),
        λ e. elim (passes e) [
          | inl admin ↦ inl (rw same at admin)
          | inr nothing ↦
              inr (match_complete b rows (client_ip r) r.x_emly_hwid r.x_emly_hostname nothing)
        ],
      )
