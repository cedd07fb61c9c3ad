-- ===== src/DbValue.antt =====
-- internal/dbvalue: what a Go value becomes in a nullable or a bounded column, and back.
use emly_go_api.Base.{
  ℕ, zero, suc, ◌≤◌, Option, none, some, String, ◌==◌, string_eq, if◌then◌else◌, nat_beq, ◌≡◌, refl,
  sym, arith, Bool-cases, inl, inr,
}

abbrev pub null_string : String → Option String
null_string s = if s == "" then none else some s

-- The zero time is 0.
abbrev pub null_time : ℕ → Option ℕ
null_time t = if nat_beq t 0 then none else some t

abbrev pub deref : Option String → String
deref none = ""
deref (some s) = s

-- The first `max` characters.
unfoldable pub truncate : String → ℕ → String
truncate String.[] max = ""
truncate (String.◌∷◌ c s) zero = ""
truncate (String.◌∷◌ c s) (suc max) = String.◌∷◌ c (truncate s max)

abbrev pub count_runes : String → ℕ
count_runes String.[] = 0
count_runes (String.◌∷◌ c s) = suc (count_runes s)

-- A text that is stored in a nullable column reads back as it was.
pub deref-null_string : (s : String) → deref (null_string s) ≡ s
deref-null_string s = elim (Bool-cases (s == "")) [
  | inl e ↦ rw e (sym ((string_eq.same_iff s "").0 e))
  | inr e ↦ rw e refl
]

-- A clamped text fits its column, and clamping it again changes nothing.
pub truncate_fits :
    (s : String) (max : ℕ)
    → (count_runes (truncate s max) ≤ max) × (truncate (truncate s max) max ≡ truncate s max)
unfolding truncate
truncate_fits String.[] max = (omega arith, refl)
truncate_fits (String.◌∷◌ c s) zero = (omega arith, refl)
truncate_fits (String.◌∷◌ c s) (suc max) =
    let (fits, again) = truncate_fits s max in (omega arith, rw again refl)
