-- ===== src/Updates/Filename.antt =====
-- updater.route.go: the version of an updater release and the name of its file.
pub mod Separators
use Prim.Native.Char.{code}
use Prim.Native.String.{String, ◌++◌}
use emly_go_api.Base.{
  ℕ, ◌+◌, Bool, true, false, Option, none, some, ◌&&◌, ◌||◌, leb, ltb, if◌then◌else◌, nat_beq, ◌≡◌,
  refl, arith, Bool-cases, inl, inr, not, Option-cases, ◌==◌, string_eq, if-intro, ◌∙◌,
}
use emly_go_api.Base.Text.{contains_byte, split_last, trim_space, is_empty}

abbrev pub is_digit : ℕ → Bool
is_digit c = leb b'0' c && leb c b'9'

abbrev pub is_suffix_byte : ℕ → Bool
is_suffix_byte c =
    is_digit c
    || leb b'A' c && leb c b'Z'
    || leb b'a' c && leb c b'z'
    || nat_beq c b'.'
    || nat_beq c b'-'

unfoldable pub all_suffix_bytes : String → Bool
all_suffix_bytes String.[] = true
all_suffix_bytes (String.◌∷◌ c s) = is_suffix_byte (code c) && all_suffix_bytes s

-- A non-empty suffix after the dash.
unfoldable pub matches_suffix : String → Bool
unfolding all_suffix_bytes
matches_suffix String.[] = false
matches_suffix (String.◌∷◌ c s) = all_suffix_bytes (String.◌∷◌ c s)

-- The numbers after `dots` dots, where `fresh` says that the next number has no digit yet.
unfoldable pub matches_numbers : Bool → ℕ → String → Bool
unfolding matches_suffix
matches_numbers fresh dots String.[] = not fresh && leb 1 dots
matches_numbers fresh dots (String.◌∷◌ c s) =
    let digit = matches_numbers false dots s in
    let dot = matches_numbers true (dots + 1) s in
    if is_digit (code c)
    then digit
    else if nat_beq (code c) b'.'
    then not fresh && ltb dots 3 && dot
    else nat_beq (code c) b'-' && not fresh && leb 1 dots && matches_suffix s

-- updaterVersionPattern.MatchString
abbrev pub matches_updater_version : String → Bool
matches_updater_version s = matches_numbers true 0 s

-- strings.ReplaceAll(s, `\`, "/")
unfoldable pub slashed : String → String
slashed String.[] = ""
slashed (String.◌∷◌ c s) =
    let rest = slashed s in
    if nat_beq (code c) b'\\' then String.◌∷◌ "/" rest else String.◌∷◌ c rest

-- The text without its trailing slashes.
unfoldable pub trim_slashes : String → String
trim_slashes String.[] = ""
trim_slashes (String.◌∷◌ c s) =
    let rest = trim_slashes s in
    if nat_beq (code c) b'/' && is_empty rest then "" else String.◌∷◌ c rest

unfoldable pub last_element : String → String
unfolding split_last
last_element s = elim (split_last b'/' s) [ none ↦ s | some (dir, base) ↦ base ]

-- path.Base
unfoldable pub path_base : String → String
unfolding trim_slashes last_element
path_base s =
    if s == ""
    then "."
    else if last_element (trim_slashes s) == ""
    then "/"
    else last_element (trim_slashes s)

-- updaterInstallerFilename
unfoldable pub updater_installer_filename : String → String → String
unfolding slashed path_base
updater_installer_filename uploaded version =
    let name = path_base (slashed (trim_space uploaded)) in
    if name == "" || name == "." || name == "/"
    then "EMLyUpdater_Installer_" ++ (version ++ ".exe")
    else name

-- Neither separator stands in the text.
abbrev pub IsBare : String → Type 0
IsBare s = (contains_byte b'/' s ≡ false) × (contains_byte b'\\' s ≡ false)
