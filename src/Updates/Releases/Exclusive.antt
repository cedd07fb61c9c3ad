-- ===== src/Updates/Releases/Exclusive.antt =====
-- At most one release is the stable one, one the beta and one the critical one.
use emly_go_api.Base.{
  ◌≤◌, Bool, true, false, List, [], ◌∷◌, ◌++◌, String, ◌≡◌, refl, string_eq, ◌⊎◌,
}
use emly_go_api.Base.Sql.{Database, update_where, delete_where, claim}
use emly_go_api.Updates.{Release}
use emly_go_api.Updates.Slots
use emly_go_api.Updates.Slots.Claims
use emly_go_api.Updates.Rows.{
  is_version, clear_stable_flag, clear_beta_flag, clear_critical_flag, clear_all_critical,
}

abbrev pub version_of : Release → String
version_of r = r.version

abbrev pub stable : Release → Bool
stable r = r.is_stable

abbrev pub beta : Release → Bool
beta r = r.is_beta

abbrev pub critical : Release → Bool
critical r = r.is_critical

module _ (db : Database) where
  -- Versions are distinct, and at most one row holds each flag.
  abbrev pub IsExclusive : List Release → Type 0
  IsExclusive rows =
      Slots.HasDistinctKeys db version_of rows
      × (Slots.count stable rows ≤ 1)
      × (Slots.count beta rows ≤ 1)
      × (Slots.count critical rows ≤ 1)

  -- The same with the holder of each flag.
  abbrev pub HasHolders : List Release → Type 0
  HasHolders rows =
      Slots.HasDistinctKeys db version_of rows
      × Slots.HasHolder db version_of stable rows
      × Slots.HasHolder db version_of beta rows
      × Slots.HasHolder db version_of critical rows

  pub HasHolders-IsExclusive : (rows : List Release) → HasHolders rows → IsExclusive rows
  HasHolders-IsExclusive rows (d, s, b, c) = (
    d,
    Slots.count-HasHolder db version_of stable rows d s,
    Slots.count-HasHolder db version_of beta rows d b,
    Slots.count-HasHolder db version_of critical rows d c,
  )

  pub IsExclusive-HasHolders : (rows : List Release) → IsExclusive rows → HasHolders rows
  IsExclusive-HasHolders rows (d, s, b, c) = (
    d,
    Slots.HasHolder-count db version_of stable rows s,
    Slots.HasHolder-count db version_of beta rows b,
    Slots.HasHolder-count db version_of critical rows c,
  )

  -- The table in which a write has cleared the flags that it claims for the version.
  abbrev pub AreReady : Bool → Bool → Bool → String → List Release → Type 0
  AreReady s b c version rows =
      Slots.HasDistinctKeys db version_of rows
      × Claims.IsReady db version_of stable version s rows
      × Claims.IsReady db version_of beta version b rows
      × Claims.IsReady db version_of critical version c rows

  pub cleared-AreReady :
      (s b c : Bool) (version : String) (rows : List Release)
      → HasHolders rows
      → AreReady s b c version (
          claim c
            (clear_critical_flag db version)
            (claim b (clear_beta_flag db version) (claim s (clear_stable_flag db version) rows)))
  unfolding clear_stable_flag clear_beta_flag clear_critical_flag
  cleared-AreReady s b c version rows (d, hs, hb, hc) = (
    Claims.claim-HasDistinctKeys db version_of c _ _ _ (λ r. refl)
        (Claims.claim-HasDistinctKeys db version_of b _ _ _ (λ r. refl)
          (Claims.claim-HasDistinctKeys db version_of s _ _ _ (λ r. refl) d)),
    Claims.claim_other-IsReady db version_of stable version s c _ _ _ (λ r. refl) (λ r e. e)
        (Claims.claim_other-IsReady db version_of stable version s b _ _ _ (λ r. refl) (λ r e. e)
          (Claims.claim-IsReady db version_of stable version s _ rows (λ r. refl) hs)),
    Claims.claim_other-IsReady db version_of beta version b c _ _ _ (λ r. refl) (λ r e. e)
        (Claims.claim-IsReady db version_of beta version b _ _ (λ r. refl)
          (Claims.claim_other-HasHolder db version_of beta s _ _ rows (λ r. refl) (λ r e. e) hb)),
    Claims.claim-IsReady db version_of critical version c _ _ (λ r. refl)
        (Claims.claim_other-HasHolder db version_of critical b _ _ _ (λ r. refl) (λ r e. e)
          (Claims.claim_other-HasHolder db version_of critical s _ _ rows (λ r. refl) (λ r e. e)
            hc)),
  )

  -- CreateRelease clears in another order, and the critical flag on every row.
  pub created-AreReady :
      (s b c : Bool) (version : String) (rows : List Release)
      → HasHolders rows
      → AreReady s b c version (
          claim b
            (clear_beta_flag db version)
            (claim s (clear_stable_flag db version) (claim c (clear_all_critical db) rows)))
  unfolding clear_stable_flag clear_beta_flag clear_all_critical
  created-AreReady s b c version rows (d, hs, hb, hc) = (
    Claims.claim-HasDistinctKeys db version_of b _ _ _ (λ r. refl)
        (Claims.claim-HasDistinctKeys db version_of s _ _ _ (λ r. refl)
          (Claims.claim-HasDistinctKeys db version_of c _ _ _ (λ r. refl) d)),
    Claims.claim_other-IsReady db version_of stable version s b _ _ _ (λ r. refl) (λ r e. e)
        (Claims.claim-IsReady db version_of stable version s _ _ (λ r. refl)
          (Claims.claim_other-HasHolder db version_of stable c _ _ rows (λ r. refl) (λ r e. e) hs)),
    Claims.claim-IsReady db version_of beta version b _ _ (λ r. refl)
        (Claims.claim_other-HasHolder db version_of beta s _ _ _ (λ r. refl) (λ r e. e)
          (Claims.claim_other-HasHolder db version_of beta c _ _ rows (λ r. refl) (λ r e. e) hb)),
    Claims.claim_other-IsReady db version_of critical version c b _ _ _ (λ r. refl) (λ r e. e)
        (Claims.claim_other-IsReady db version_of critical version c s _ _ _ (λ r. refl) (λ r e. e)
          (Claims.claim_all-IsReady db version_of critical version c _ rows (λ r. refl) hc)),
  )

  -- A change of one row that sets no flag but those that the write claims.
  abbrev pub KeepsClaims : Bool → Bool → Bool → (Release → Release) → Type 0
  KeepsClaims s b c change =
      (r : Release)
      → (version_of (change r) ≡ version_of r)
        × (stable (change r) ≡ true → (s ≡ true) ⊎ (stable r ≡ true))
        × (beta (change r) ≡ true → (b ≡ true) ⊎ (beta r ≡ true))
        × (critical (change r) ≡ true → (c ≡ true) ⊎ (critical r ≡ true))

  pub updated-HasHolders :
      (s b c : Bool) (version : String) (change : Release → Release) (rows : List Release)
      → KeepsClaims s b c change
      → AreReady s b c version rows
      → HasHolders (update_where (is_version db version) change rows)
  updated-HasHolders s b c version change rows keeps (d, rs, rb, rc) = (
    Slots.update_where-HasDistinctKeys db version_of _ change rows (λ r. (keeps r).0) d,
    Claims.update-HasHolder db version_of stable version s change rows (λ r. (keeps r).0)
        (λ r. (keeps r).1) rs,
    Claims.update-HasHolder db version_of beta version b change rows (λ r. (keeps r).0)
        (λ r. (keeps r).2) rb,
    Claims.update-HasHolder db version_of critical version c change rows (λ r. (keeps r).0)
        (λ r. (keeps r).3) rc,
  )

  pub inserted-HasHolders :
      (new : Release) (rows : List Release)
      → Slots.has_key db version_of new.version rows ≡ false
      → AreReady new.is_stable new.is_beta new.is_critical new.version rows
      → HasHolders (rows ++ new ∷ [])
  inserted-HasHolders new rows fresh (d, rs, rb, rc) = (
    Slots.append_one-HasDistinctKeys db version_of rows new fresh d,
    Claims.insert-HasHolder db version_of stable new.is_stable new rows (λ e. e) rs,
    Claims.insert-HasHolder db version_of beta new.is_beta new rows (λ e. e) rb,
    Claims.insert-HasHolder db version_of critical new.is_critical new rows (λ e. e) rc,
  )

  pub delete_where-HasHolders :
      (p : Release → Bool) (rows : List Release)
      → HasHolders rows
      → HasHolders (delete_where p rows)
  delete_where-HasHolders p rows (d, (u, hs), (v, hb), (w, hc)) = (
    Slots.delete_where-HasDistinctKeys db version_of p rows d,
    (u, Slots.All-delete_where _ p rows hs),
    (v, Slots.All-delete_where _ p rows hb),
    (w, Slots.All-delete_where _ p rows hc),
  )
