-- ===== src/UpdaterClient/Upserts.antt =====
-- The upsert of a client that gives its host name meets no duplicate key.
use emly_go_api.Base.{
  ℕ, Bool, true, false, not, ◌&&◌, Option, none, some, List, ◌==◌, string_eq, ◌≡◌, [], ◌∷◌, suc,
  ◌≢◌, refl, sym, ◌∙◌, arith, Bool-cases, Option-cases, inl, inr, All, All-imp, if-intro, is_some,
}
use emly_go_api.Base.Result.{Result, ok, fail}
use emly_go_api.Base.Sql.{Database, find_where}
use emly_go_api.DbValue.{null_string}
use emly_go_api.UpdaterClient.{Identity}
use emly_go_api.UpdaterClient.Registry.{
  Client, Clients, Faults, Failure, duplicate_key, coalesce, same_hwid, is_pair, collides, refresh,
  fresh_client, has_id, find_hwid, find_pair, find_target, is_target, clear_pair, update_client,
  insert_client, write_client, upsert,
}
use emly_go_api.UpdaterClient.Collisions.{
  HasUniqueKeys, some_row-none, find_where-none, delete_where-All, target_unique, find_hwid-given,
  find_pair-given,
}

module _ (db : Database) (id : Identity) (now : ℕ) (named : (id.hostname == "") ≡ false) where
  -- What is left has the pair only in the target.
  clear_pair-All :
      (P : Client → Type 0) (target : Option Client) (rows : List Client)
      → All P rows
      → All
          (λ d.
            P d × ((is_pair db id.hostname id.ad_domain d && not (is_target db target d)) ≡ false))
          (clear_pair db id target rows)
  unfolding clear_pair
  clear_pair-All P target rows h = rw named (delete_where-All P _ rows h)

  update_client-some :
      (t : Client) (rows : List Client)
      → HasUniqueKeys db rows
      → find_target db id rows ≡ some t
      → is_some (update_client db id now t (clear_pair db id (some t) rows)) ≡ true
  unfolding update_client
  update_client-some t rows u e =
      rw
        (some_row-none _ _ (
          All-imp _ (λ d (apart, off). clean d apart off)
            (clear_pair-All _ (some t) rows (target_unique db id rows t u named e))))
        refl
    where
      clean :
          (d : Client)
          → (has_id t.id d ≡ false → same_hwid db (coalesce id.hwid t.hwid) d.hwid ≡ false)
          → (is_pair db id.hostname id.ad_domain d && not (has_id t.id d)) ≡ false
          → (not (has_id t.id d) && collides db (refresh id now t) d) ≡ false
      clean d apart off = elim (Bool-cases (has_id t.id d)) [
        | inl own ↦ rw own refl
        | inr other ↦
            let free = apart other in
            let pair : is_pair db id.hostname id.ad_domain d ≡ false = both _ (rw other at off) in
            rw (other, free, pair) refl
      ]
        where
          both : (b : Bool) → (b && true) ≡ false → b ≡ false
          both b e = ground arith

  -- Without a target the two lookups found nothing.
  find_target-none :
      (rows : List Client)
      → find_target db id rows ≡ none
      → (find_hwid db id.hwid rows ≡ none)
        × (find_where (is_pair db id.hostname id.ad_domain) rows ≡ none)
  unfolding find_target
  find_target-none rows e = elim (Option-cases (find_hwid db id.hwid rows)) [
    | inl missing ↦
        let later : find_pair db id.hostname id.ad_domain rows ≡ none =
          rw (missing, find_target) at e in
        (missing, sym (find_pair-given db id.hostname id.ad_domain rows named) ∙ later)
    | inr (c, found) ↦ absurd_some c (rw (found, find_target) at e)
  ]
    where
      absurd_some : {P : Type 0} (c : Client) → some c ≡ none → P
      absurd_some c e = cc

  -- Then no row has the hwid of the new one.
  fresh_unique :
      (rows : List Client)
      → find_hwid db id.hwid rows ≡ none
      → All (λ d. same_hwid db (null_string id.hwid) d.hwid ≡ false) rows
  fresh_unique rows missing = elim (Bool-cases (id.hwid == "")) [
    | inl empty ↦ rw empty (all rows)
    | inr given ↦ rw given (
        find_where-none (λ c. same_hwid db (some id.hwid) c.hwid) rows
          (sym (find_hwid-given db id.hwid rows given) ∙ missing))
  ]
    where
      all : (rows : List Client) → All (λ d. same_hwid db none d.hwid ≡ false) rows
      all [] = tt
      all (d ∷ rows) = (refl, all rows)

  insert_client-some :
      (i : ℕ) (rows : List Client)
      → find_target db id rows ≡ none
      → is_some (insert_client db id i now (clear_pair db id none rows)) ≡ true
  unfolding insert_client
  insert_client-some i rows e =
      rw
        (some_row-none _ _ (
          All-imp _ (λ d (free, off). clean d free off)
            (clear_pair-All _ none rows (fresh_unique rows (find_target-none rows e).0))))
        refl
    where
      clean :
          (d : Client)
          → same_hwid db (null_string id.hwid) d.hwid ≡ false
          → (is_pair db id.hostname id.ad_domain d && true) ≡ false
          → collides db (fresh_client id i now) d ≡ false
      clean d free off =
          let pair : is_pair db id.hostname id.ad_domain d ≡ false = both _ off in
          rw (free, pair) refl
        where
          both : (b : Bool) → (b && true) ≡ false → b ≡ false
          both b e = ground arith

  -- The write of an upsert goes through.
  NotDuplicate : Result Failure ℕ × Clients → Type 0
  NotDuplicate answer = answer.0 ≢ fail duplicate_key

  written-NotDuplicate :
      (o : Option (List Client)) (left : Clients) (i : ℕ) (written : List Client → Clients)
      → is_some o ≡ true
      → NotDuplicate (elim o [ none ↦ (fail duplicate_key, left) | some new ↦ (ok i, written new) ])
  unfolding NotDuplicate
  written-NotDuplicate none left i written h = cc
  written-NotDuplicate (some new) left i written h = λ e. cc e

  write-NotDuplicate :
      (target : Option Client) (rows : List Client) (next : ℕ)
      → HasUniqueKeys db rows
      → find_target db id rows ≡ target
      → NotDuplicate (write_client db id now target (clear_pair db id target rows) next)
  unfolding write_client
  write-NotDuplicate none rows next u e =
      written-NotDuplicate (insert_client db id next now (clear_pair db id none rows)) _ next
        (λ new. record { rows = new; next_id = suc next }) (insert_client-some next rows e)
  write-NotDuplicate (some t) rows next u e =
      written-NotDuplicate (update_client db id now t (clear_pair db id (some t) rows)) _ t.id
        (λ new. record { rows = new; next_id = next }) (update_client-some t rows u e)

-- A sighting that gives the host name does not end in a duplicate-key error, from a table in which no
-- two rows share a hwid or a pair of host name and domain, whichever statements fail, when no other
-- sighting runs between its statements.
pub upsert-ne-duplicate :
    (db : Database) (f : Faults) (now : ℕ) (id : Identity) (s : Clients)
    → (id.hostname == "") ≡ false
    → HasUniqueKeys db s.rows
    → (upsert db f now id s).0 ≢ fail duplicate_key
unfolding upsert NotDuplicate
upsert-ne-duplicate db f now id s named u =
    let Safe : Result Failure ℕ × Clients → Type 0 = λ answer. answer.0 ≢ fail duplicate_key in
    if-intro Safe (not (id.hwid == "") && f.lookup_hwid) _ _ (λ e. cc e)
      (if-intro Safe
        (not (is_some (find_hwid db id.hwid s.rows)) && not (id.hostname == "") && f.lookup_pair) _
        _ (λ e. cc e)
        (if-intro Safe (not (id.hostname == "") && f.delete) _ _ (λ e. cc e)
          (if-intro Safe f.write _ _ (λ e. cc e)
            (write-NotDuplicate db id now named (find_target db id s.rows) s.rows s.next_id u
              refl))))
