-- ===== src/Updates/Filename/Separators.antt =====
-- The file name of an updater release has no separator, whatever name is uploaded.
use Prim.Native.Char.{code}
use Prim.Native.String.{String, ◌++◌}
use Prim.Native.String.append
use emly_go_api.Base.{
  ℕ, ◌+◌, Bool, true, false, Option, none, some, ◌||◌, nat_beq, ◌≡◌, refl, arith, Bool-cases, inl,
  inr, Option-cases, ◌==◌, string_eq, if-intro, sym,
}
use emly_go_api.Base.Text.{contains_byte, split_last, trim_space}
use emly_go_api.Updates.Filename.{
  is_digit, all_suffix_bytes, matches_suffix, matches_numbers, matches_updater_version, slashed,
  trim_slashes, last_element, path_base, updater_installer_filename, IsBare,
}

absurd_some : {A : Type 0} {a : A} {P : Type 0} → some a ≡ none → P
absurd_some e = cc

some-pair :
    {A B : Type 0} {a c : A} {b d : B}
    → ◌≡◌ {A = Option (A × B)} (some (a, b)) (some (c, d))
    → (a ≡ c) × (b ≡ d)
some-pair e = (cc e, cc e)

-- A text that the search finds no separator in.
split_last-none : (b : ℕ) (s : String) → split_last b s ≡ none → contains_byte b s ≡ false
unfolding split_last contains_byte
split_last-none b String.[] e = refl
split_last-none b (String.◌∷◌ c s) e = elim (Option-cases (split_last b s)) [
  | inl f ↦ elim (Bool-cases (nat_beq (code c) b)) [
    | inl sep ↦ absurd_some (rw (f, sep) at e)
    | inr other ↦ let ih = split_last-none b s f in ground arith
  ]
  | inr ((host, port), f) ↦ absurd_some (rw f at e)
]

-- The part after the last separator has none, and nothing that the text has not.
split_last-clean :
    (b d : ℕ) (s host port : String)
    → split_last b s ≡ some (host, port)
    → (contains_byte b port ≡ false) × (contains_byte d s ≡ false → contains_byte d port ≡ false)
unfolding split_last contains_byte
split_last-clean b d String.[] host port e = cc
split_last-clean b d (String.◌∷◌ c s) host port e = elim (Option-cases (split_last b s)) [
  | inl f ↦ elim (Bool-cases (nat_beq (code c) b)) [
    | inl sep ↦
        let clean = split_last-none b s f in
        let same : s ≡ port = (some-pair (rw (f, sep) at e)).1 in
        (rw (← same) clean, λ h. rw (← same) (ground arith))
    | inr other ↦ absurd_some (sym (rw (f, other) at e))
  ]
  | inr ((first, last), f) ↦
      let (clean, less) = split_last-clean b d s first last f in
      let same : last ≡ port = (some-pair (rw f at e)).1 in
      (rw (← same) clean, λ h. rw (← same) (less (ground arith)))
]

contains_byte-append :
    (b : ℕ) (s t : String) → contains_byte b (s ++ t) ≡ (contains_byte b s || contains_byte b t)
unfolding contains_byte
contains_byte-append b String.[] t = rw (append.nil t) refl
contains_byte-append b (String.◌∷◌ c s) t =
    rw (append.cons c s t) (ground (arith, contains_byte-append b s t))

contains_byte-slashed : (s : String) → contains_byte b'\\' (slashed s) ≡ false
unfolding contains_byte slashed
contains_byte-slashed String.[] = refl
contains_byte-slashed (String.◌∷◌ c s) = ground (arith, contains_byte-slashed s)

contains_byte-trim_slashes :
    (d : ℕ) (s : String) → contains_byte d s ≡ false → contains_byte d (trim_slashes s) ≡ false
unfolding contains_byte trim_slashes
contains_byte-trim_slashes d String.[] h = refl
contains_byte-trim_slashes d (String.◌∷◌ c s) h = ground (arith, contains_byte-trim_slashes d s)

last_element-IsBare : (s : String) → contains_byte b'\\' s ≡ false → IsBare (last_element s)
unfolding last_element
last_element-IsBare s h = elim (Option-cases (split_last b'/' s)) [
  | inl f ↦ rw (f, last_element) (split_last-none b'/' s f, h)
  | inr ((dir, base), f) ↦
      let (clean, less) = split_last-clean b'/' b'\\' s dir base f in
      rw (f, last_element) (clean, less h)
]

-- A version of the pattern is bare.
suffix-IsBare : (s : String) → all_suffix_bytes s ≡ true → IsBare s
unfolding all_suffix_bytes contains_byte
suffix-IsBare String.[] h = (refl, refl)
suffix-IsBare (String.◌∷◌ c s) h =
    let rest = suffix-IsBare s (ground arith) in (ground arith, ground arith)

matches_suffix-IsBare : (s : String) → matches_suffix s ≡ true → IsBare s
unfolding matches_suffix
matches_suffix-IsBare String.[] h = cc
matches_suffix-IsBare (String.◌∷◌ c s) h = suffix-IsBare (String.◌∷◌ c s) h

numbers-IsBare :
    (fresh : Bool) (dots : ℕ) (s : String) → matches_numbers fresh dots s ≡ true → IsBare s
unfolding matches_numbers contains_byte
numbers-IsBare fresh dots String.[] h = (refl, refl)
numbers-IsBare fresh dots (String.◌∷◌ c s) h = elim (Bool-cases (is_digit (code c))) [
  | inl digit ↦
      let rest = numbers-IsBare false dots s (ground arith) in (ground arith, ground arith)
  | inr other ↦ elim (Bool-cases (nat_beq (code c) b'.')) [
    | inl dot ↦
        let rest = numbers-IsBare true (dots + 1) s (ground arith) in (ground arith, ground arith)
    | inr dash ↦ let rest = matches_suffix-IsBare s (ground arith) in (ground arith, ground arith)
  ]
]

fallback-IsBare :
    (version : String) → IsBare version → IsBare ("EMLyUpdater_Installer_" ++ (version ++ ".exe"))
unfolding contains_byte
fallback-IsBare version h = (bare b'/' refl refl h.0, bare b'\\' refl refl h.1)
  where
    bare :
        (b : ℕ)
        → contains_byte b "EMLyUpdater_Installer_" ≡ false
        → contains_byte b ".exe" ≡ false
        → contains_byte b version ≡ false
        → contains_byte b ("EMLyUpdater_Installer_" ++ (version ++ ".exe")) ≡ false
    bare b e f h =
        rw
          (
            contains_byte-append b "EMLyUpdater_Installer_" (version ++ ".exe"),
            contains_byte-append b version ".exe",
            e,
            h,
          )
          f

-- Whatever file name is uploaded, the name under which an updater release is stored holds neither a
-- slash nor a backslash, given a version that the pattern accepts.
pub updater_installer_filename-IsBare :
    (uploaded version : String)
    → matches_updater_version version ≡ true
    → IsBare (updater_installer_filename uploaded version)
unfolding updater_installer_filename path_base
updater_installer_filename-IsBare uploaded version h =
    let fallback = fallback-IsBare version (numbers-IsBare true 0 version h) in
    let name = slashed (trim_space uploaded) in
    elim (Bool-cases (name == "")) [
      | inl empty ↦ rw empty fallback
      | inr given ↦ elim (Bool-cases (last_element (trim_slashes name) == "")) [
        | inl root ↦ rw (given, root) fallback
        | inr base ↦
            rw (given, base)
              (if-intro IsBare _ _ _ fallback (
                last_element-IsBare (trim_slashes name) (
                  contains_byte-trim_slashes b'\\' name
                    (contains_byte-slashed (trim_space uploaded)))))
      ]
    ]
