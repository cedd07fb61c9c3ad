-- ===== src/Updates/Slots/Claims.antt =====
-- A write that claims a flag for the row of one key: the flag is cleared elsewhere, and then the
-- row of that key is changed or inserted.
use emly_go_api.Base.{
  Bool, true, false, not, ◌&&◌, List, [], ◌∷◌, ◌++◌, String, ◌≡◌, refl, ◌⊎◌, inl, inr, if-intro,
  subst,
}
use emly_go_api.Base.Sql.{Database, update_where, claim}
use emly_go_api.Updates.Slots

module _ {R : Type 0} (db : Database) (key : R → String) where
  -- The flag has one holder, which is `v` if the write claims the flag.
  abbrev pub IsReady : (R → Bool) → String → Bool → List R → Type 0
  IsReady flag v claimed rows =
      (w : String) × Slots.IsHeldBy db key flag w rows × (claimed ≡ true → w ≡ v)

  pub claim-IsReady :
      (flag : R → Bool) (v : String) (claimed : Bool) (f : R → R) (rows : List R)
      → ((r : R) → flag (f r) ≡ false)
      → Slots.HasHolder db key flag rows
      → IsReady flag v claimed
          (claim claimed (update_where (λ r. flag r && not (db.same v (key r))) f) rows)
  claim-IsReady flag v true f rows off h =
      (v, Slots.clear_elsewhere-IsHeldBy db key flag v f rows off, λ e. refl)
  claim-IsReady flag v false f rows off (w, h) = (w, h, λ e. cc)

  -- With the flag cleared on every row, also on that of `v`.
  pub claim_all-IsReady :
      (flag : R → Bool) (v : String) (claimed : Bool) (f : R → R) (rows : List R)
      → ((r : R) → flag (f r) ≡ false)
      → Slots.HasHolder db key flag rows
      → IsReady flag v claimed (claim claimed (update_where flag f) rows)
  claim_all-IsReady flag v true f rows off h = (
    v,
    Slots.All-update_where (λ r. Unit) _ flag f rows (λ r h e on. cc (on, off r))
        (λ r h e on. cc (on, e)) (Slots.All-every _ rows (λ r. tt)),
    λ e. refl,
  )
  claim_all-IsReady flag v false f rows off (w, h) = (w, h, λ e. cc)

  -- What is claimed for another flag.
  pub claim_other-IsReady :
      (flag : R → Bool) (v : String) (claimed other : Bool) (p : R → Bool) (f : R → R)
      (rows : List R)
      → Slots.KeepsKey db key f
      → Slots.KeepsUnset db key flag f
      → IsReady flag v claimed rows
      → IsReady flag v claimed (claim other (update_where p f) rows)
  claim_other-IsReady flag v claimed true p f rows keeps unset (w, h, is) =
      (w, Slots.update_where-IsHeldBy db key flag w p f rows keeps unset h, is)
  claim_other-IsReady flag v claimed false p f rows keeps unset r = r

  pub update-HasHolder :
      (flag : R → Bool) (v : String) (claimed : Bool) (f : R → R) (rows : List R)
      → Slots.KeepsKey db key f
      → ((r : R) → flag (f r) ≡ true → (claimed ≡ true) ⊎ (flag r ≡ true))
      → IsReady flag v claimed rows
      → Slots.HasHolder db key flag (update_where (λ r. db.same v (key r)) f rows)
  update-HasHolder flag v true f rows keeps set (w, h, is) =
      let held : Slots.IsHeldBy db key flag v rows =
        subst (λ u. Slots.IsHeldBy db key flag u rows) (is refl) h in
      (v, Slots.update_key-IsHeldBy db key flag v f rows keeps held)
  update-HasHolder flag v false f rows keeps set (w, h, is) = (
    w,
    Slots.update_where-IsHeldBy db key flag w (λ r. db.same v (key r)) f rows keeps
        (λ r on. elim (set r on) [ inl never ↦ cc | inr before ↦ before ]) h,
  )

  pub insert-HasHolder :
      (flag : R → Bool) (claimed : Bool) (r : R) (rows : List R)
      → (flag r ≡ true → claimed ≡ true)
      → IsReady flag (key r) claimed rows
      → Slots.HasHolder db key flag (rows ++ r ∷ [])
  insert-HasHolder flag claimed r rows set (w, h, is) =
      (w, Slots.All-append_one _ rows r h (λ on. rw (is (set on)) (db.same_refl (key r))))

  pub claim-HasDistinctKeys :
      (claimed : Bool) (p : R → Bool) (f : R → R) (rows : List R)
      → Slots.KeepsKey db key f
      → Slots.HasDistinctKeys db key rows
      → Slots.HasDistinctKeys db key (claim claimed (update_where p f) rows)
  claim-HasDistinctKeys claimed p f rows keeps d =
      if-intro (Slots.HasDistinctKeys db key) claimed (update_where p f rows) rows
        (Slots.update_where-HasDistinctKeys db key p f rows keeps d) d

  pub claim_other-HasHolder :
      (flag : R → Bool) (other : Bool) (p : R → Bool) (f : R → R) (rows : List R)
      → Slots.KeepsKey db key f
      → Slots.KeepsUnset db key flag f
      → Slots.HasHolder db key flag rows
      → Slots.HasHolder db key flag (claim other (update_where p f) rows)
  claim_other-HasHolder flag other p f rows keeps unset (w, h) =
      let (u, held, is) =
        claim_other-IsReady flag "" false other p f rows keeps unset (w, h, λ e. cc) in
      (u, held)
