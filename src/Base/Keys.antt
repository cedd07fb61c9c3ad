-- ===== src/Base/Keys.antt =====
-- Keys with a Boolean test of equality, and Go maps that are only looked up, as functions.
use Prim.Native.Nat.{ℕ}
use Prim.Native.String.{String}
use mathlib.Core.Path.{◌≡◌, refl}
use mathlib.Core.Logic.{◌↔◌, ◌≢◌}
use mathlib.Core.Bool.{Bool, true, false}
use mathlib.Core.Option.{Option, none, some}
use native.Mathlib.Omega.{arith}
use text.Mathlib.Text.{◌==◌ as str_eq}
use text.Mathlib.TextEquality.{eq_iff}
use emly_go_api.Base.Tests.{if◌then◌else◌, nat_beq, nat_beq_iff}

-- What `==` needs of a type whose values are keys: a Boolean test that decides equality.
pub record Key {ℓ} (K : Type ℓ) : Type ℓ where
  pub same : K → K → Bool
  pub same_iff : (j k : K) → (same j k ≡ true) ↔ (j ≡ k)

abbrev pub Map {ℓ κ} : Type ℓ → Type κ → Type (ℓ ⊔ κ)
Map K V = K → Option V

abbrev pub empty {ℓ κ} : {K : Type ℓ} {V : Type κ} → Map K V
empty k = none

-- Texts and numbers are keys.
instance abbrev pub string_eq : Key String
string_eq = record { same = str_eq; same_iff = eq_iff }

infix 50 ◌==◌
abbrev pub ◌==◌ {ℓ} : {K : Type ℓ} ⦃key : Key K⦄ → K → K → Bool
◌==◌ ⦃key⦄ = key.same

abbrev pub update {ℓ κ} : {K : Type ℓ} {V : Type κ} ⦃key : Key K⦄ → K → V → Map K V → Map K V
update k v m j = if k == j then some v else m j

instance abbrev pub nat_eq : Key ℕ
nat_eq = record { same = nat_beq; same_iff = nat_beq_iff }

abbrev pub remove {ℓ κ} : {K : Type ℓ} {V : Type κ} ⦃key : Key K⦄ → K → Map K V → Map K V
remove k m j = if k == j then none else m j

pub ==-refl {ℓ} : {K : Type ℓ} ⦃key : Key K⦄ (k : K) → (k == k) ≡ true
==-refl ⦃key⦄ k = (key.same_iff k k).1 refl

pub ==-ne {ℓ} : {K : Type ℓ} ⦃key : Key K⦄ (j k : K) → j ≢ k → (j == k) ≡ false
==-ne ⦃key⦄ j k h = ground (arith, key.same_iff j k)
