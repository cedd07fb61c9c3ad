-- ===== src/Base/Dict.antt =====
-- A Go map that is ranged over or measured, as an association list.
use mathlib.Core.Path.{◌≡◌}
use mathlib.Core.Logic.{◌≢◌, inl, inr}
use mathlib.Core.List.{List, [], ◌∷◌}
use mathlib.Core.Option.{Option, none, some}
use emly_go_api.Base.Tests.{if◌then◌else◌, Bool-cases}
use emly_go_api.Base.Keys.{Key, ◌==◌, ==-refl, ==-ne}

abbrev pub Dict {ℓ κ} : Type ℓ → Type κ → Type (ℓ ⊔ κ)
Dict K V = List (K × V)

module _ {ℓ κ} {K : Type ℓ} {V : Type κ} ⦃key : Key K⦄ where
  abbrev pub get : K → Dict K V → Option V
  get k [] = none
  get k ((j, v) ∷ m) = let rest = get k m in if j == k then some v else rest

  -- m[k] = v
  abbrev pub put : K → V → Dict K V → Dict K V
  put k v [] = (k, v) ∷ []
  put k v ((j, w) ∷ m) = let rest = put k v m in if j == k then (j, v) ∷ m else (j, w) ∷ rest

  pub get-put_self : (k : K) (v : V) (m : Dict K V) → get k (put k v m) ≡ some v
  get-put_self k v [] = rw (==-refl k)
  get-put_self k v ((j, w) ∷ m) = elim (Bool-cases (j == k)) [
    | inl e ↦ rw (e, e)
    | inr e ↦ rw (e, e, get-put_self k v m)
  ]

  pub get-put_ne : (k i : K) (v : V) (m : Dict K V) → k ≢ i → get i (put k v m) ≡ get i m
  get-put_ne k i v [] h = rw (==-ne k i h)
  get-put_ne k i v ((j, w) ∷ m) h = elim (Bool-cases (j == k)) [
    | inl e ↦ let same : j ≡ k = (key.same_iff j k).0 e in rw (e, same, ==-ne k i h)
    | inr e ↦ rw (e, get-put_ne k i v m h)
  ]
