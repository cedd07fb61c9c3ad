-- ===== src/Base/Result.antt =====
-- What a handler has reached: the first error response, or a value to go on with.
use mathlib.Core.Path.{◌≡◌, refl}
use mathlib.Core.Bool.{Bool, true, false}
use mathlib.Core.Option.{Option, none, some}

pub data Result {ℓ κ} (E : Type ℓ) (A : Type κ) : Type (ℓ ⊔ κ) where
  ok : A → Result E A
  fail : E → Result E A

infixl 5 ◌>>=◌ ◌>>◌
abbrev pub ◌>>=◌ {ℓ κ ι} :
    {E : Type ℓ} {A : Type κ} {B : Type ι} → Result E A → (A → Result E B) → Result E B
ok a >>= k = k a
fail e >>= k = fail e

abbrev pub ◌>>◌ {ℓ κ} : {E : Type ℓ} {B : Type κ} → Result E (Unit {0}) → Result E B → Result E B
m >> k = m >>= λ _. k

-- An early return when a test holds.
abbrev pub stop_if {ℓ} : {E : Type ℓ} → Bool → E → Result E (Unit {0})
stop_if true e = fail e
stop_if false e = ok tt

-- A value, or an early return where it is missing.
abbrev pub need {ℓ κ} : {E : Type ℓ} {A : Type κ} → Option A → E → Result E A
need none e = fail e
need (some a) e = ok a

-- The answer and the state after a handler whose error, answered as `refuse` says, leaves the state
-- `s`: `defer tx.Rollback()`.
abbrev pub settle {ℓ κ ι} :
    {E : Type ℓ} {B : Type ι} {A : Type κ} → (E → B) → A → Result E (B × A) → B × A
settle refuse s (ok answer) = answer
settle refuse s (fail e) = (refuse e, s)

-- Every value that is reached satisfies `P`.
abbrev pub Holds {ℓ κ ι} : {E : Type ℓ} {A : Type κ} → (A → Type ι) → Result E A → Type ι
Holds P (ok a) = P a
Holds P (fail e) = Unit

pub stop_if-Holds {ℓ κ ι} :
    {E : Type ℓ} {A : Type κ} (P : A → Type ι) (b : Bool) (e : E) (k : Result E A)
    → Holds P k
    → Holds P (stop_if b e >> k)
stop_if-Holds P true e k h = tt
stop_if-Holds P false e k h = h

pub need-Holds {ℓ κ ι φ} :
    {E : Type ℓ} {A : Type κ} {B : Type φ} (P : B → Type ι) (o : Option A) (e : E)
    (k : A → Result E B)
    → ((a : A) → o ≡ some a → Holds P (k a))
    → Holds P (need o e >>= k)
need-Holds P none e k h = tt
need-Holds P (some a) e k h = h a refl

-- The answer and the state after a handler satisfy what every refusal and every reached one satisfy.
pub settle-after {ℓ κ ι φ} :
    {E : Type ℓ} {B : Type ι} {A : Type κ} (P : B × A → Type φ) (refuse : E → B) (s : A)
    (r : Result E (B × A))
    → ((e : E) → P (refuse e, s))
    → Holds P r
    → P (settle refuse s r)
settle-after P refuse s (ok answer) p h = h
settle-after P refuse s (fail e) p h = p e
